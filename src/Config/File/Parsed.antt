-- ===== src/Config/File/Parsed.antt =====
-- internal/config/config.go: what `parse` makes of a configuration file.
use mcp_reverse_proxy.Config.File.{
  unreadable, single, validate, first_document, apply_defaults, at_end, FileError, marshal_timeless,
  validated, coded, marshal_document, document, to_json, parse, YamlRead,
}
use mcp_reverse_proxy.Prelude.{
  ℕ, ◌≡◌, refl, sym, ap, subst, ◌≢◌, ◌↔◌, Option, none, some, [], Result, ok, err, bind-ok, nat_eq,
  list_eq, Bytes,
}
use mcp_reverse_proxy.Config.Types.{File}
use mcp_reverse_proxy.Config.File.Accepted.{IsAccepted, validate_iff}
use mcp_reverse_proxy.Config.Document.{
  Document, null, scalar, timestamp, mapping, sequence, Timeless, refuse_timestamps,
  refuse_timestamps-Timeless,
}

-- The text is one YAML document, not null and without a scalar read as a time, that the two
-- encoders take to the file.
pub record Describes {E : Type 0} (read_yaml : Bytes → ℕ → YamlRead E)
    (marshal : Document → Result E Bytes) (decode : Bytes → Result E File) (text : Bytes) (f : File)
    : Type 0 where
  pub tree : Document
  pub json : Bytes
  pub read : read_yaml text 0 ≡ document tree
  pub alone : read_yaml text 1 ≡ at_end
  pub present : tree ≢ null
  pub timeless : Timeless tree
  pub encoded : marshal tree ≡ ok json
  pub decoded : decode json ≡ ok f

module _ {E : Type 0} (read_yaml : Bytes → ℕ → YamlRead E) (marshal : Document → Result E Bytes)
    (decode : Bytes → Result E File) where
  coded-ok :
      {A : Type 0} (r : Result E A) (a : A) → (coded read_yaml marshal decode r ≡ ok a) ↔ (r ≡ ok a)
  unfolding coded
  coded-ok (ok x) a = ((λ h. cc), λ h. cc)
  coded-ok (err e) a = ((λ h. absurd cc), λ h. absurd cc)

  marshal_timeless-ok :
      (d : Document) (o : Option Bytes) (json : Bytes)
      → (marshal_timeless read_yaml marshal decode d o ≡ ok json)
        ↔ ((o ≡ none) × (marshal d ≡ ok json))
  unfolding marshal_timeless
  marshal_timeless-ok d (some place) json = ((λ h. absurd cc), λ (h, _). absurd cc)
  marshal_timeless-ok d none json =
      let (to, from) = coded-ok (marshal d) json in ((λ h. (refl, to h)), λ (_, h). from h)

  marshal_present :
      (d : Document) (json : Bytes)
      → d ≢ null
      → (marshal_timeless read_yaml marshal decode d (refuse_timestamps d []) ≡ ok json)
        ↔ ((d ≢ null) × (Timeless d × (marshal d ≡ ok json)))
  marshal_present d json present =
      let (to, from) = marshal_timeless-ok d (refuse_timestamps d []) json in
      let (sound, complete) = refuse_timestamps-Timeless d [] in
      (
        λ h. (present, (sound (to h).0, (to h).1)),
        λ (_, (timeless, h)). from (complete timeless, h),
      )

  marshal_document-ok :
      (d : Document) (json : Bytes)
      → (marshal_document read_yaml marshal decode d ≡ ok json)
        ↔ ((d ≢ null) × (Timeless d × (marshal d ≡ ok json)))
  unfolding marshal_document
  marshal_document-ok null json = ((λ h. absurd cc), λ (h, _). absurd (h refl))
  marshal_document-ok (scalar s) json = marshal_present (scalar s) json (λ h. cc)
  marshal_document-ok (timestamp s) json = marshal_present (timestamp s) json (λ h. cc)
  marshal_document-ok (mapping ms) json = marshal_present (mapping ms) json (λ h. cc)
  marshal_document-ok (sequence is) json = marshal_present (sequence is) json (λ h. cc)

  to_json-ok :
      (text json : Bytes)
      → (to_json read_yaml marshal decode text ≡ ok json) ↔ (
          (d : Document) × ((read_yaml text 0 ≡ document d)
            × ((read_yaml text 1 ≡ at_end) × ((d ≢ null) × (Timeless d × (marshal d ≡ ok json))))))
  unfolding to_json first_document single
  to_json-ok text json = reads (read_yaml text 0) (read_yaml text 1)
    where
      reads :
          (r q : YamlRead E)
          → (first_document read_yaml marshal decode r q ≡ ok json) ↔ (
              (d : Document) × ((r ≡ document d)
                × ((q ≡ at_end) × ((d ≢ null) × (Timeless d × (marshal d ≡ ok json))))))
      reads at_end q = ((λ h. absurd cc), λ (d, (h, _)). absurd cc)
      reads (unreadable e) q = ((λ h. absurd cc), λ (d, (h, _)). absurd cc)
      reads (document d) at_end =
          let (to, from) = marshal_document-ok d json in
          (
            (λ h. (d, (refl, (refl, to h)))),
            λ (d', (same, (_, h))).
                from (subst (λ x. (x ≢ null) × (Timeless x × (marshal x ≡ ok json))) (sym cc) h),
          )
      reads (document d) (unreadable e) = ((λ h. absurd cc), λ (d, (_, (h, _))). absurd cc)
      reads (document d) (document d') = ((λ h. absurd cc), λ (d, (_, (h, _))). absurd cc)

  validated-ok :
      (f g : File) (o : Option (FileError E))
      → (validated read_yaml marshal decode f o ≡ ok g) ↔ ((o ≡ none) × (f ≡ g))
  unfolding validated
  validated-ok f g (some e) = ((λ h. absurd cc), λ (h, _). absurd cc)
  validated-ok f g none = ((λ h. (refl, cc)), λ (_, h). ap ok h)

  -- A configuration file is accepted exactly if its text is one YAML document, not null and
  -- without a value read as a time, that the decoders take to a file which, with the defaults
  -- filled in, has usable servers with different identifiers, and limits that are all positive,
  -- the limit for a subject not above that for all. There may be no servers, in every
  -- mode of the policy. The result is that file.
  pub parse_iff :
      (text : Bytes) (f : File)
      → (parse read_yaml marshal decode text ≡ ok f) ↔ (
          (written : File) × (Describes read_yaml marshal decode text written
            × ((f ≡ apply_defaults written) × IsAccepted f)))
  unfolding parse validated
  parse_iff text f = (
    λ h.
        let (json, e, h') = bind-ok (to_json read_yaml marshal decode text) _ f h in
        let (written, e', h'') = bind-ok (coded read_yaml marshal decode (decode json)) _ f h' in
        let (fine, same) =
          (validated-ok (apply_defaults written) f (validate (apply_defaults written))).0 h'' in
        let (d, (read, (alone, (present, (timeless, encoded))))) = (to_json-ok text json).0 e in
        (
          written,
          (
            record {
              tree = d;
              json = json;
              read = read;
              alone = alone;
              present = present;
              timeless = timeless;
              encoded = encoded;
              decoded = (coded-ok (decode json) written).0 e';
            },
            (sym same, subst IsAccepted same ((validate_iff {E = E} written).0 fine)),
          ),
        ),
    λ (written, (d, (same, accepted))).
        let e =
          (to_json-ok text d.json).1
            (d.tree, (d.read, (d.alone, (d.present, (d.timeless, d.encoded))))) in
        let e' = (coded-ok (decode d.json) written).1 d.decoded in
        let fine = (validate_iff {E = E} written).1 (subst IsAccepted same accepted) in
        rw (e, e', fine, same) refl,
  )
