-- ===== src/Examples/Aggregate.antt =====
-- internal/aggregate at concrete inputs.
use mcp_reverse_proxy.Backend.Normalize.{plain}
use mcp_reverse_proxy.Aggregate.Uri.RoundTrip.{unwrap_uri-wrap_uri, ParsesWrapped}
use mcp_reverse_proxy.Aggregate.Uri.Cuts.{cut_at-append}
use mcp_reverse_proxy.Aggregate.Uri.Template.{
  template_body_enough, ends, coded, expand-template_body, plain, Unescapes, expand,
}
use mcp_reverse_proxy.Aggregate.Uri.{
  cut_at, scheme, wrap_uri, template_body, Url, unreserved, path_unescape, unwrap_uri,
}
use mcp_reverse_proxy.Prelude.{
  ◌≤◌, ◌≡◌, refl, ◌≢◌, ◌↔◌, true, false, Option, none, some, List, [], ◌∷◌, ◌++◌, append_assoc,
  arith, nat_eq, list_eq, Bytes, length, All, contains, codes,
}
use mcp_reverse_proxy.Aggregate.Name.{cut_prefix, new_router, route}
use mcp_reverse_proxy.Aggregate.Name.Route.{Owns, route_iff}
use mcp_reverse_proxy.Aggregate.Listen.{
  set_pending, tools, prompts, Listener, new_listener, deliver_marks, deliver_sends, remove_one,
}
use mcp_reverse_proxy.Aggregate.Listen.Stream.{
  Reach, fresh, marks, sends, under_way, flag, on_its_way_once, deliver_finds_room,
}

abbrev ids : List Bytes
ids = codes "git" ∷ codes "git__hub" ∷ []

route_test : route (new_router ids) (codes "git__hub__pull") ≡ some (codes "git__hub", codes "pull")
unfolding route new_router mcp_reverse_proxy.Prelude.Sorting.sort_by
    mcp_reverse_proxy.Aggregate.Name.longest_first mcp_reverse_proxy.Aggregate.Name.longer_first
    mcp_reverse_proxy.Aggregate.Name.name_under mcp_reverse_proxy.Aggregate.Name.cut_prefix
route_test = refl

route_iff_example :
    (route (new_router ids) (codes "git__hub__pull") ≡ some (codes "git__hub", codes "pull")) ↔ (
      Owns ids (codes "git__hub__pull") (codes "git__hub") (codes "pull")
      × ((other rest : Bytes)
          → Owns ids (codes "git__hub__pull") other rest
          → length other ≤ length (codes "git__hub")))
route_iff_example = route_iff ids (codes "git__hub__pull") (codes "git__hub") (codes "pull")

-- A change of the tools has been queued, and one of the prompts is about to be.
abbrev announcing : Listener
announcing =
    deliver_marks prompts
      (record new_listener { changes = tools ∷ []; pending = set_pending tools true (λ _. false) })

queued_tools :
    deliver_sends tools (deliver_marks tools new_listener)
    ≡ some (record new_listener {
      changes = tools ∷ [];
      pending = set_pending tools true (λ _. false);
    })
unfolding deliver_sends remove_one deliver_marks new_listener
    mcp_reverse_proxy.Aggregate.Listen.kind_beq
queued_tools = refl

announcing_reached : Reach announcing
announcing_reached = marks (sends (marks fresh tools) tools queued_tools) prompts

on_its_way_once_example : under_way prompts announcing ≡ flag (announcing.pending prompts)
on_its_way_once_example = on_its_way_once announcing_reached prompts

deliver_finds_room_example : deliver_sends prompts announcing ≢ none
unfolding remove_one deliver_marks set_pending mcp_reverse_proxy.Aggregate.Listen.kind_beq
    new_listener
deliver_finds_room_example = deliver_finds_room announcing_reached prompts [] refl

-- `url.Parse` on the URIs of the gateway.
after_host : Option (Bytes × Bytes) → Option Url
after_host none = none
after_host (some (host, path)) =
    some (record { url_scheme = scheme; host = host; escaped_path = 47 ∷ path })

after_scheme : Option Bytes → Option Url
unfolding after_host
after_scheme none = none
after_scheme (some rest) = after_host (cut_at 47 rest)

pub parse_gateway : Bytes → Option Url
unfolding after_scheme after_host
parse_gateway s = after_scheme (cut_prefix (scheme ++ codes "://") s)

unreserved-no_slash : (s : Bytes) → All (λ c. unreserved c ≡ true) s → contains s 47 ≡ false
unfolding unreserved
unreserved-no_slash [] _ = refl
unreserved-no_slash (c ∷ s) (h, hs) = ground (arith, unreserved-no_slash s hs)

pub parse_gateway-ParsesWrapped : ParsesWrapped parse_gateway
unfolding ParsesWrapped parse_gateway after_scheme after_host cut_prefix
parse_gateway-ParsesWrapped host path safe escapes valid =
    rw
      (
        append_assoc host (codes "/") path,
        cut_at-append 47 host path (unreserved-no_slash host safe),
      )
      refl

unwrap_uri-wrap_uri_example :
    unwrap_uri parse_gateway (wrap_uri (codes "git") (codes "file:///a b"))
    ≡ some (codes "git", codes "file:///a b")
unfolding unreserved
unwrap_uri-wrap_uri_example =
    unwrap_uri-wrap_uri parse_gateway parse_gateway-ParsesWrapped (codes "git")
      (codes "file:///a b") refl (refl, (refl, (refl, tt))) refl (omega arith)

-- The client expands every expression to `a%20b`.
abbrev encoded_value : Bytes → Bytes
encoded_value _ = codes "a%20b"

abbrev plain_value : Bytes → Bytes
plain_value _ = codes "a b"

encoded_value-Unescapes : (e : Bytes) → Unescapes (encoded_value e) (plain_value e)
unfolding mcp_reverse_proxy.Aggregate.Uri.unhex
encoded_value-Unescapes e = plain refl (coded {a = 2} {b = 0} refl refl (plain refl ends))

abbrev template : Bytes
template = codes "x:{v}"

expand-template_body_example :
    path_unescape (expand encoded_value 6 (template_body 6 template))
    ≡ some (expand plain_value 6 template)
expand-template_body_example =
    expand-template_body encoded_value plain_value 6 template encoded_value-Unescapes (omega arith)

-- The backend would have expanded its own template to the first, and is asked for the second.
divergence_test :
    (expand encoded_value 6 template ≡ codes "x:a%20b")
    × (path_unescape (expand encoded_value 6 (template_body 6 template)) ≡ some (codes "x:a b"))
unfolding expand mcp_reverse_proxy.Aggregate.Uri.next_expression cut_at path_unescape template_body
    mcp_reverse_proxy.Aggregate.Uri.escape unreserved mcp_reverse_proxy.Aggregate.Uri.hex_digit
    mcp_reverse_proxy.Aggregate.Uri.unhex
divergence_test = (refl, refl)

template_body_enough_example : template_body 7 template ≡ template_body 60 template
template_body_enough_example = template_body_enough 7 60 template (omega arith) (omega arith)
