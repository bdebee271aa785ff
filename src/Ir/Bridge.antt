-- ===== src/Ir/Bridge.antt =====
-- crates/standardoc-ir/src/bridge_kind.rs: the vocabulary of bridges. A `BridgeKind` is its slug.
use standardoc.Base.{String, Bool, true, false, ◌||◌, Option, none, some, List, [], ◌∷◌, ◌==◌}
use standardoc.Base.Text.{strip_prefix}

abbrev pub BridgeKind : Type 0
BridgeKind = String

pub builtin_bridge_kinds : List String
builtin_bridge_kinds =
    "tauri" ∷ "wasm-bindgen" ∷ "napi" ∷ "neon" ∷ "pyo3" ∷ "cffi" ∷ "ffi" ∷ "cxx" ∷ "uniffi" ∷ "jni"
    ∷ "cgo" ∷ "mlua" ∷ "wit" ∷ "swift-bridge" ∷ "kotlin-native" ∷ "electron-ipc" ∷ "wasi"
    ∷ "dotnet-pinvoke" ∷ "comlink" ∷ "db-table" ∷ "db-view" ∷ "db-procedure" ∷ "db-model"
    ∷ "db-column" ∷ "db-index" ∷ "db-migration" ∷ "sql" ∷ "sqlx" ∷ "diesel" ∷ "sea-orm" ∷ "prisma"
    ∷ "drizzle" ∷ "typeorm" ∷ "mikro-orm" ∷ "kysely" ∷ "mongoose" ∷ "sqlalchemy" ∷ "django-orm"
    ∷ "peewee" ∷ "gorm" ∷ "sqlc" ∷ "ef-core" ∷ "activerecord" ∷ "rest" ∷ "graphql" ∷ "grpc"
    ∷ "proto" ∷ "openapi" ∷ "trpc" ∷ "connect-rpc" ∷ "jsonrpc" ∷ "soap" ∷ "webhook"
    ∷ "server-actions" ∷ "route-handler" ∷ "redis-pubsub" ∷ "redis-stream" ∷ "kafka" ∷ "nats"
    ∷ "rabbitmq" ∷ "mqtt" ∷ "aws-sqs" ∷ "aws-sns" ∷ "gcp-pubsub" ∷ "azure-servicebus" ∷ "cron"
    ∷ "temporal" ∷ "bullmq" ∷ "sidekiq" ∷ "celery" ∷ "unix-socket" ∷ "pipe" ∷ "embed-asset"
    ∷ "i18n-key" ∷ "env-var" ∷ "config-key" ∷ "feature-flag" ∷ "secret-ref" ∷ []

abbrev pub custom_bridge_prefix : String
custom_bridge_prefix = "custom:"

-- `kinds.contains(&slug)`
unfoldable pub contains : List String → String → Bool
contains [] slug = false
contains (k ∷ kinds) slug = k == slug || contains kinds slug

unfoldable pub is_builtin : BridgeKind → Bool
unfolding contains builtin_bridge_kinds
is_builtin slug = contains builtin_bridge_kinds slug

unfoldable pub is_custom : BridgeKind → Bool
unfolding strip_prefix
is_custom slug = elim (strip_prefix custom_bridge_prefix slug) [ none ↦ false | some _ ↦ true ]

unfoldable pub is_valid : BridgeKind → Bool
unfolding is_builtin is_custom
is_valid slug = is_builtin slug || is_custom slug

pub data BridgeKindError : Type 0 where
  invalid : String → BridgeKindError

-- `none` is `Ok(())`.
unfoldable pub try_validate : BridgeKind → Option BridgeKindError
unfolding is_valid
try_validate slug = elim (is_valid slug) [
  | true ↦ none
  | false ↦ some (BridgeKindError.invalid slug)
]
