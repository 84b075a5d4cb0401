-- ===== src/Examples/File.antt =====
-- internal/config/config.go, a configuration file, at concrete inputs.
use mcp_reverse_proxy.Prelude.{
  ℕ, zero, suc, ◌≡◌, refl, ◌↔◌, [], ◌∷◌, Result, ok, nat_eq, list_eq, Bytes, is_empty, codes,
}
use mcp_reverse_proxy.Prelude.Int.{ℤ, pos}
use mcp_reverse_proxy.Config.Types.{File}
use mcp_reverse_proxy.Config.Document.{Document, mapping, no_members}
use mcp_reverse_proxy.Config.File.{YamlRead, at_end, document, parse, apply_defaults}
use mcp_reverse_proxy.Config.File.Accepted.{IsAccepted}
use mcp_reverse_proxy.Config.File.Parsed.{Describes, parse_iff}
use mcp_reverse_proxy.Examples.Config.{git}

-- A stream of one empty mapping.
abbrev read_one : Bytes → ℕ → YamlRead Bytes
read_one text zero = document (mapping no_members)
read_one text (suc n) = at_end

abbrev marshal_one : Document → Result Bytes Bytes
marshal_one d = ok (codes "{}")

-- A file with one server and the limits of this number of processes.
abbrev limited : ℤ → File
limited n = record {
  servers = git ∷ [];
  limits = record {
    max_processes = n;
    max_processes_per_subject = pos 0;
    idle_ttl = pos 0;
    probe_timeout = pos 0;
    max_header_bytes = pos 0;
  };
  policy = record { mode = []; command_allowlist = []; env_denylist = [] };
}

abbrev decode_four : Bytes → Result Bytes File
decode_four json = ok (limited (pos 4))

four_test :
    parse read_one marshal_one decode_four (codes "{}") ≡ ok (apply_defaults (limited (pos 4)))
unfolding parse apply_defaults is_empty mcp_reverse_proxy.Config.File.to_json
    mcp_reverse_proxy.Config.File.first_document mcp_reverse_proxy.Config.File.single
    mcp_reverse_proxy.Config.File.marshal_document mcp_reverse_proxy.Config.File.marshal_timeless
    mcp_reverse_proxy.Config.Document.refuse_timestamps mcp_reverse_proxy.Config.File.coded
    mcp_reverse_proxy.Config.File.validated mcp_reverse_proxy.Config.File.validate
    mcp_reverse_proxy.Config.File.validate_limits mcp_reverse_proxy.Config.Validate.validate_servers
    mcp_reverse_proxy.Config.File.default_era mcp_reverse_proxy.Config.Types.known_era
    mcp_reverse_proxy.Prelude.Maps.lookup mcp_reverse_proxy.Config.Env.has_empty_key
    mcp_reverse_proxy.Config.Env.env_keys mcp_reverse_proxy.Config.File.check_limits
    mcp_reverse_proxy.Config.File.defaulted mcp_reverse_proxy.Config.File.first_negative
    mcp_reverse_proxy.Config.File.limit_fields mcp_reverse_proxy.Config.File.or_default
    mcp_reverse_proxy.Prelude.Maps.insert mcp_reverse_proxy.Prelude.Sorting.sort_by
    mcp_reverse_proxy.Prelude.Sorting.sort_bytes
four_test = refl

parse_iff_example :
    (parse read_one marshal_one decode_four (codes "{}") ≡ ok (apply_defaults (limited (pos 4))))
    ↔ ((written : File) × (Describes read_one marshal_one decode_four (codes "{}") written
          × ((apply_defaults (limited (pos 4)) ≡ apply_defaults written)
              × IsAccepted (apply_defaults (limited (pos 4))))))
parse_iff_example =
    parse_iff read_one marshal_one decode_four (codes "{}") (apply_defaults (limited (pos 4)))
