-- ===== src/Span.antt =====
-- The protobuf messages that the extension fills, as src/utils.cc and src/provider.cc use them:
-- opentelemetry.proto.trace.v1 Span and Status, common.v1 KeyValue and AnyValue, resource.v1
-- Resource, and ExportTraceServiceRequest, whose one ResourceSpans holds one span for each of its
-- InstrumentationLibrarySpans. Fields that the code leaves at their defaults are left out.
use opentelemetry_php_ext.Common.{ℕ, Bool, List, [], ◌∷◌, ◌++◌, Option, Bytes}

-- A signed 64-bit integer; `negsuc n` is -(n + 1).
pub data ℤ : Type 0 where
  pos : ℕ → ℤ
  negsuc : ℕ → ℤ

-- A double is kept as its 64-bit pattern.
pub data AnyValue : Type 0 where
  string_value : Bytes → AnyValue
  int_value : ℤ → AnyValue
  double_value : ℕ → AnyValue
  bool_value : Bool → AnyValue

pub record KeyValue : Type 0 where
  pub key : Bytes
  pub value : AnyValue

pub data StatusCode : Type 0 where
  unset ok error : StatusCode

pub record Status : Type 0 where
  pub code : StatusCode
  pub message : Bytes

pub record Event : Type 0 where
  pub name : Bytes
  pub time_unix_nano : ℕ
  pub attributes : List KeyValue

pub record Span : Type 0 where
  pub trace_id : Bytes
  pub span_id : Bytes
  pub parent_span_id : Bytes
  pub name : Bytes
  pub kind : ℕ
  pub start_time_unix_nano : ℕ
  pub end_time_unix_nano : ℕ
  pub attributes : List KeyValue
  pub events : List Event
  pub status : Status

pub record Resource : Type 0 where
  pub attributes : List KeyValue

-- `resource` is what `set_allocated_resource` gave to the ResourceSpans.
pub record Request : Type 0 where
  pub resource : Option Resource
  pub spans : List Span

-- `Span_SpanKind`, a number on the wire.
abbrev pub kind_unspecified : ℕ
kind_unspecified = 0

abbrev pub kind_internal : ℕ
kind_internal = 1

abbrev pub kind_server : ℕ
kind_server = 2

abbrev pub kind_client : ℕ
kind_client = 3

-- The setters fill the attribute that `add_attributes` appends.
abbrev pub set_string_attribute : List KeyValue → Bytes → Bytes → List KeyValue
set_string_attribute attributes k v = attributes ++ record { key = k; value = string_value v } ∷ []

abbrev pub set_int64_attribute : List KeyValue → Bytes → ℤ → List KeyValue
set_int64_attribute attributes k v = attributes ++ record { key = k; value = int_value v } ∷ []

abbrev pub set_double_attribute : List KeyValue → Bytes → ℕ → List KeyValue
set_double_attribute attributes k v = attributes ++ record { key = k; value = double_value v } ∷ []

abbrev pub set_bool_attribute : List KeyValue → Bytes → Bool → List KeyValue
set_bool_attribute attributes k v = attributes ++ record { key = k; value = bool_value v } ∷ []
