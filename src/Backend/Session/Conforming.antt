-- ===== src/Backend/Session/Conforming.antt =====
-- internal/backend/sdk.go with normalize.go: what a session answers fits the revision that the
-- gateway speaks, whichever era the backend is of.
use mcp_reverse_proxy.Prelude.{
  ◌≡◌, refl, inl, inr, false, Option, none, some, List, [], ◌∷◌, Bool-cases, Result, ok, err, ◌>>=◌,
  nat_eq, list_eq, Bytes, is_empty,
}
use mcp_reverse_proxy.Prelude.Int.{ℤ}
use mcp_reverse_proxy.Prelude.Maps.{Map}
use mcp_reverse_proxy.Backend.Normalize.{
  CallError, wire, session_gone, other_error, BackendError, not_connected, protocol,
  connection_lost, plain, Cache, IsOwn, normalize_cache, normalize_cache-IsOwn,
  normalize_result_type, result_type_complete, normalize_error, normalize_error_code, int_eq,
  code_resource_not_found,
}
use mcp_reverse_proxy.Backend.Types.{Source}
use mcp_reverse_proxy.Backend.Session.{
  Encoder, SdkConnection, SdkList, SdkTool, SdkPrompt, normalized, ask, encoded, schema_bytes,
  tool_of, tools_of, argument_bytes, prompt_of, prompts_of, list_cache, connection, list_tools,
  call_tool, list_prompts, get_prompt, list_resources, list_resource_templates, read_resource,
}

module _ {E : Type 0} (id : Bytes) where
  -- A JSON-RPC error names its own backend, and has no code that the revision retired.
  abbrev pub Attributed : BackendError E → Type 0
  Attributed not_connected = Unit
  Attributed (protocol from code message) =
      (from ≡ id) × (int_eq code code_resource_not_found ≡ false)
  Attributed (connection_lost e) = Unit
  Attributed (plain e) = Unit

  -- An outcome that is good, or an error that is attributed.
  abbrev pub Answers : {X : Type 0} → (X → Type 0) → Result (BackendError E) X → Type 0
  Answers Good (ok x) = Good x
  Answers Good (err e) = Attributed e

-- A result type that is named, and hints that keep the listing to its subject.
pub record IsFit (result_type : Bytes) (cache : Cache) : Type 0 where
  pub named : is_empty result_type ≡ false
  pub own : IsOwn cache

-- What the rest of the gateway relies on in a backend's answers.
pub record Conforms {E : Type 0} (id : Bytes) (s : Source (BackendError E)) : Type 0 where
  pub tools : Answers id (λ l. IsFit l.result_type l.cache) s.list_tools
  pub prompts : Answers id (λ l. IsFit l.result_type l.cache) s.list_prompts
  pub resources : Answers id (λ l. IsFit l.result_type l.cache) s.list_resources
  pub templates : Answers id (λ l. IsFit l.result_type l.cache) s.list_resource_templates
  pub calls :
      (name arguments : Bytes)
      → Answers id (λ r. r.result_type ≡ result_type_complete) (s.call_tool name arguments)
  pub gets :
      (name : Bytes) (arguments : Map Bytes Bytes)
      → Answers id (λ r. r.result_type ≡ result_type_complete) (s.get_prompt name arguments)
  pub reads : (uri : Bytes) → Answers id (λ r. IsFit r.result_type r.cache) (s.read_resource uri)

normalize_result_type-named : (t : Bytes) → is_empty (normalize_result_type t) ≡ false
unfolding normalize_result_type is_empty
normalize_result_type-named [] = refl
normalize_result_type-named (c ∷ t) = refl

listing-IsFit :
    {X : Type 0} (l : SdkList X) → IsFit (normalize_result_type l.result_type) (list_cache l)
unfolding list_cache
listing-IsFit l = record {
  named = normalize_result_type-named l.result_type;
  own = normalize_cache-IsOwn _;
}

complete-IsFit : (c : Cache) → IsFit result_type_complete (normalize_cache c)
unfolding is_empty
complete-IsFit c = record { named = refl; own = normalize_cache-IsOwn c }

module _ {E : Type 0} (id : Bytes) where
  -- Two steps of which each is good, or fails with an attributed error.
  bind-Answers :
      {X Y : Type 0} (Good : Y → Type 0) (r : Result (BackendError E) X)
      (f : X → Result (BackendError E) Y)
      → Answers id (λ _. Unit {0}) r
      → ((x : X) → Answers id Good (f x))
      → Answers id Good (r >>= f)
  bind-Answers Good (ok x) f h k = k x
  bind-Answers Good (err e) f h k = h

  encoded-Answers : (r : Result E Bytes) → Answers id (λ _. Unit {0}) (encoded r)
  unfolding encoded
  encoded-Answers (ok raw) = tt
  encoded-Answers (err e) = tt

  module _ {S C A M R : Type 0} (encoder : Encoder S C A M R E) where
    schema_bytes-Answers : (o : Option S) → Answers id (λ _. Unit {0}) (schema_bytes encoder o)
    unfolding schema_bytes
    schema_bytes-Answers none = tt
    schema_bytes-Answers (some schema) = encoded-Answers (encoder.schema schema)

    tool_of-Answers : (t : SdkTool S) → Answers id (λ _. Unit {0}) (tool_of encoder t)
    unfolding tool_of
    tool_of-Answers t =
        bind-Answers (λ _. Unit {0}) (schema_bytes encoder t.input_schema) _
          (schema_bytes-Answers t.input_schema) (λ schema. tt)

    argument_bytes-Answers : (l : List A) → Answers id (λ _. Unit {0}) (argument_bytes encoder l)
    unfolding argument_bytes
    argument_bytes-Answers [] = tt
    argument_bytes-Answers (a ∷ l) = encoded-Answers (encoder.arguments (a ∷ l))

    prompt_of-Answers : (p : SdkPrompt A) → Answers id (λ _. Unit {0}) (prompt_of encoder p)
    unfolding prompt_of
    prompt_of-Answers p =
        bind-Answers (λ _. Unit {0}) (argument_bytes encoder p.arguments) _
          (argument_bytes-Answers p.arguments) (λ arguments. tt)

    tools_of-Answers : (ts : List (SdkTool S)) → Answers id (λ _. Unit {0}) (tools_of encoder ts)
    unfolding tools_of
    tools_of-Answers [] = tt
    tools_of-Answers (t ∷ ts) =
        bind-Answers (λ _. Unit {0}) (tool_of encoder t) _ (tool_of-Answers t)
          (λ tool.
            bind-Answers (λ _. Unit {0}) (tools_of encoder ts) _ (tools_of-Answers ts)
              (λ tools. tt))

    prompts_of-Answers :
        (ps : List (SdkPrompt A)) → Answers id (λ _. Unit {0}) (prompts_of encoder ps)
    unfolding prompts_of
    prompts_of-Answers [] = tt
    prompts_of-Answers (p ∷ ps) =
        bind-Answers (λ _. Unit {0}) (prompt_of encoder p) _ (prompt_of-Answers p)
          (λ prompt.
            bind-Answers (λ _. Unit {0}) (prompts_of encoder ps) _ (prompts_of-Answers ps)
              (λ prompts. tt))

module _ (invalid : ℤ) (kept : int_eq invalid code_resource_not_found ≡ false) where
  normalize_error_code-kept :
      (code : ℤ) → int_eq (normalize_error_code invalid code) code_resource_not_found ≡ false
  unfolding normalize_error_code
  normalize_error_code-kept code = elim (Bool-cases (int_eq code code_resource_not_found)) [
    | inl retired ↦ rw retired kept
    | inr current ↦ rw current current
  ]

  module _ {E : Type 0} (id : Bytes) where
    normalize_error-Attributed : (e : CallError E) → Attributed id (normalize_error invalid id e)
    unfolding normalize_error
    normalize_error-Attributed (wire code message) = (refl, normalize_error_code-kept code)
    normalize_error-Attributed (session_gone e) = tt
    normalize_error-Attributed (other_error e) = tt

    normalized-Answers :
        {X : Type 0} (r : Result (CallError E) X)
        → Answers id (λ _. Unit {0}) (normalized invalid id r)
    unfolding normalized
    normalized-Answers (ok x) = tt
    normalized-Answers (err e) = normalize_error-Attributed e

    ask-Answers :
        {T X : Type 0} (request : T → Result (CallError E) X) (session : Option T)
        → Answers id (λ _. Unit {0}) (ask invalid id request session)
    unfolding ask
    ask-Answers request none = tt
    ask-Answers request (some s) = normalized-Answers (request s)

    -- A request, with what follows it.
    asked :
        {T X Y : Type 0} (Good : Y → Type 0) (request : T → Result (CallError E) X)
        (session : Option T) (f : X → Result (BackendError E) Y)
        → ((x : X) → Answers id Good (f x))
        → Answers id Good (ask invalid id request session >>= f)
    asked Good request session f h =
        bind-Answers id Good (ask invalid id request session) f (ask-Answers request session) h

  -- Whatever a backend answers, a session's listings and its resources have a result type, the
  -- scope `private` and a positive lifetime, its other results are complete, and a JSON-RPC error
  -- names that backend and has no code that the revision retired; if the code for invalid
  -- parameters is not itself retired.
  pub connection-Conforms :
      {S C A M R E : Type 0} (encoder : Encoder S C A M R E) (c : SdkConnection S C A M R E)
      → Conforms c.server_id (connection encoder invalid c)
  unfolding connection list_tools call_tool list_prompts get_prompt list_resources
      list_resource_templates read_resource
  connection-Conforms encoder c = record {
    tools =
        asked id (λ l. IsFit l.result_type l.cache) (λ s. s.list_tools) c.session _
          (λ res.
            bind-Answers id (λ l. IsFit l.result_type l.cache) (tools_of encoder res.entries) _
              (tools_of-Answers id encoder res.entries) (λ _. listing-IsFit res));
    prompts =
        asked id (λ l. IsFit l.result_type l.cache) (λ s. s.list_prompts) c.session _
          (λ res.
            bind-Answers id (λ l. IsFit l.result_type l.cache) (prompts_of encoder res.entries) _
              (prompts_of-Answers id encoder res.entries) (λ _. listing-IsFit res));
    resources =
        asked id (λ l. IsFit l.result_type l.cache) (λ s. s.list_resources) c.session _
          (λ res. listing-IsFit res);
    templates =
        asked id (λ l. IsFit l.result_type l.cache) (λ s. s.list_resource_templates) c.session _
          (λ res. listing-IsFit res);
    calls = λ name arguments.
        asked id (λ r. r.result_type ≡ result_type_complete) (λ s. s.call_tool name arguments)
          c.session _
          (λ res.
            bind-Answers id (λ r. r.result_type ≡ result_type_complete)
              (encoded (encoder.content res.content)) _ (encoded-Answers id _) (λ raw. refl));
    gets = λ name arguments.
        asked id (λ r. r.result_type ≡ result_type_complete) (λ s. s.get_prompt name arguments)
          c.session _
          (λ res.
            bind-Answers id (λ r. r.result_type ≡ result_type_complete)
              (encoded (encoder.messages res.messages)) _ (encoded-Answers id _) (λ raw. refl));
    reads = λ uri.
        asked id (λ r. IsFit r.result_type r.cache) (λ s. s.read_resource uri) c.session _
          (λ res.
            bind-Answers id (λ r. IsFit r.result_type r.cache)
              (encoded (encoder.contents res.contents)) _ (encoded-Answers id _)
              (λ raw. complete-IsFit _));
  }
    where
      open c use {server_id as id}
