-- ===== src/Pipeline/Examples/Imports.antt =====
-- The lookup of a module that imports one name twice, written beside another module's rows.
use standardoc.Base.{String, ◌≡◌, refl, true, false, some, [], ◌∷◌}
use standardoc.Ir.Kinds.{Language}
use standardoc.Ir.Lookup.{ModuleLookup, ImportRecord}
use standardoc.Storage.Error.{ok}
use standardoc.Storage.Database.{Database, ImportRow}
use standardoc.Storage.Satellites.{put_module_lookup}
use standardoc.Storage.Satellites.Imports.Rebuilt.{IsRebuilt, put_module_lookup-IsRebuilt}
use standardoc.Pipeline.Examples.{plain, empty_database}

abbrev import : ImportRecord
import = record {
  local_name = "Map";
  origin_module = "std::collections";
  origin_symbol = some "HashMap";
  is_type_only = false;
  is_re_export = false;
}

abbrev lookup : ModuleLookup
lookup = record {
  module_fqdn = "a";
  language = Language.rust;
  scopes = [];
  bindings = [];
  imports = import ∷ record import { is_re_export = true } ∷ [];
  built_at_epoch_ms = 7;
  span_to_scope = [];
}

abbrev import_row_of : String → ImportRow
import_row_of module_fqdn = record {
  workspace_id = "primary";
  module_fqdn = module_fqdn;
  local_name = "Map";
  origin_module = "std::collections";
  origin_symbol = some "HashMap";
  is_type_only = false;
  is_re_export = false;
}

abbrev before : Database
before = record empty_database {
  workspace_imports = record (import_row_of "a") { local_name = "Old" } ∷ import_row_of "b" ∷ [];
}

abbrev after : Database
after = record empty_database {
  module_lookups =
      record {
        module_fqdn = "a";
        workspace_id = "primary";
        language = "rust";
        built_at = 7;
        payload = [];
      }
      ∷ [];
  workspace_imports = import_row_of "b" ∷ import_row_of "a" ∷ [];
}

written_once : put_module_lookup plain before "primary" lookup ≡ ok after
unfolding put_module_lookup
written_once = refl

put_module_lookup-IsRebuilt_example :
    IsRebuilt "primary" lookup before.workspace_imports after.workspace_imports
put_module_lookup-IsRebuilt_example =
    put_module_lookup-IsRebuilt plain before "primary" lookup after written_once
