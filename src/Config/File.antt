-- ===== src/Config/File.antt =====
-- internal/config/config.go: the defaults and the validation of a configuration file.
pub mod Accepted
pub mod Parsed
use mcp_reverse_proxy.Prelude.{
  ℕ, Option, none, some, List, [], ◌∷◌, map, if◌then◌else◌, Result, ok, err, ◌>>=◌, nat_eq, list_eq,
  Bytes, is_empty, codes,
}
use mcp_reverse_proxy.Prelude.Int.{ℤ, pos, gtb, is_negative, is_zero, min_ℤ}
use mcp_reverse_proxy.Config.Types.{File, Limits, Server, era_auto}
use mcp_reverse_proxy.Config.Validate.{ServersError, validate_servers}
use mcp_reverse_proxy.Config.Document.{
  sequence, mapping, timestamp, scalar, Document, null, refuse_timestamps,
}

-- `DefaultLimits`: five minutes and two seconds, in nanoseconds.
abbrev pub default_limits : Limits
default_limits = record {
  max_processes = pos 64;
  max_processes_per_subject = pos 8;
  idle_ttl = pos 300000000000;
  probe_timeout = pos 2000000000;
  max_header_bytes = pos 8192;
}

unfoldable pub default_era : Server → Server
default_era s = if is_empty s.era then record s { era = era_auto } else s

unfoldable pub or_default : ℤ → ℤ → ℤ
or_default given default = if is_zero given then default else given

unfoldable pub defaulted : Limits → Limits
defaulted l =
    let total = or_default l.max_processes default_limits.max_processes in
    record {
      max_processes = total;
      max_processes_per_subject =
          or_default l.max_processes_per_subject
            (min_ℤ default_limits.max_processes_per_subject total);
      idle_ttl = or_default l.idle_ttl default_limits.idle_ttl;
      probe_timeout = or_default l.probe_timeout default_limits.probe_timeout;
      max_header_bytes = or_default l.max_header_bytes default_limits.max_header_bytes;
    }

-- `applyDefaults`.
unfoldable pub apply_defaults : File → File
apply_defaults f = record f { servers = map default_era f.servers; limits = defaulted f.limits }

pub data FileError (E : Type 0) : Type 0 where
  empty_file : FileError E
  trailing_content : FileError E
  read_as_time : Bytes → FileError E
  decoder : E → FileError E
  servers_refused : ServersError → FileError E
  negative_limit : Bytes → FileError E
  subject_exceeds : ℤ → ℤ → FileError E

-- What a call of the YAML decoder gives; `at_end` is `io.EOF`.
pub data YamlRead (E : Type 0) : Type 0 where
  at_end : YamlRead E
  unreadable : E → YamlRead E
  document : Document → YamlRead E

-- The limits in the order of the loop of `validate`.
unfoldable pub limit_fields : Limits → List (Bytes × ℤ)
limit_fields l =
    (codes "maxProcesses", l.max_processes)
    ∷ (codes "maxProcessesPerSubject", l.max_processes_per_subject)
    ∷ (codes "maxHeaderBytes", l.max_header_bytes)
    ∷ (codes "idleTtl", l.idle_ttl)
    ∷ (codes "probeTimeout", l.probe_timeout)
    ∷ []

unfoldable pub first_negative : {E : Type 0} → List (Bytes × ℤ) → Option (FileError E)
first_negative [] = none
first_negative ((field, value) ∷ rest) =
    let later = first_negative rest in
    if is_negative value then some (negative_limit field) else later

unfoldable pub check_limits : {E : Type 0} → Limits → Option (FileError E) → Option (FileError E)
check_limits l (some e) = some e
check_limits l none =
    if gtb l.max_processes_per_subject l.max_processes
    then some (subject_exceeds l.max_processes_per_subject l.max_processes)
    else none

unfoldable pub validate_limits : {E : Type 0} → Limits → Option ServersError → Option (FileError E)
validate_limits l (some e) = some (servers_refused e)
validate_limits l none = check_limits l (first_negative (limit_fields l))

-- `validate`. A nil error is `none`.
unfoldable pub validate : {E : Type 0} → File → Option (FileError E)
validate f = validate_limits f.limits (validate_servers f.servers)

-- `read_yaml data n` is call `n` of the YAML decoder, `marshal` is `json.Marshal` and `decode` is
-- the strict JSON decoder.
module _ {E : Type 0} (read_yaml : Bytes → ℕ → YamlRead E) (marshal : Document → Result E Bytes)
    (decode : Bytes → Result E File) where
  unfoldable pub coded : {A : Type 0} → Result E A → Result (FileError E) A
  coded (ok a) = ok a
  coded (err e) = err (decoder e)

  unfoldable pub marshal_timeless : Document → Option Bytes → Result (FileError E) Bytes
  marshal_timeless d (some place) = err (read_as_time place)
  marshal_timeless d none = coded (marshal d)

  unfoldable pub marshal_document : Document → Result (FileError E) Bytes
  marshal_document null = err empty_file
  marshal_document (scalar s) = marshal_timeless (scalar s) (refuse_timestamps (scalar s) [])
  marshal_document (timestamp s) =
      marshal_timeless (timestamp s) (refuse_timestamps (timestamp s) [])
  marshal_document (mapping ms) = marshal_timeless (mapping ms) (refuse_timestamps (mapping ms) [])
  marshal_document (sequence is) =
      marshal_timeless (sequence is) (refuse_timestamps (sequence is) [])

  unfoldable pub single : Document → YamlRead E → Result (FileError E) Bytes
  single d at_end = marshal_document d
  single d (unreadable e) = err trailing_content
  single d (document d') = err trailing_content

  unfoldable pub first_document : YamlRead E → YamlRead E → Result (FileError E) Bytes
  first_document at_end second = err empty_file
  first_document (unreadable e) second = err (decoder e)
  first_document (document d) second = single d second

  -- `toJSON`.
  unfoldable pub to_json : Bytes → Result (FileError E) Bytes
  to_json text = first_document (read_yaml text 0) (read_yaml text 1)

  unfoldable pub validated : File → Option (FileError E) → Result (FileError E) File
  validated f (some e) = err e
  validated f none = ok f

  -- `parse`.
  unfoldable pub parse : Bytes → Result (FileError E) File
  parse text = do
    json ← to_json text
    f ← coded (decode json)
    validated (apply_defaults f) (validate (apply_defaults f))
