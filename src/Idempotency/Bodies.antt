-- ===== src/Idempotency/Bodies.antt =====
-- The response that the middleware keeps: the wrappers of `res.json` and `res.send`, and the record of
-- the `finish` listener. `stringify` is `JSON.stringify`; a buffer is given by the text that it decodes
-- to, any other value by a name of it.
use implement_offering_valid.Common.{
  ℕ, String, ◌≡◌, refl, Bool, true, false, Option, none, some, List, [], ◌∷◌, is_empty, to_lower,
  has_part,
}
use implement_offering_valid.Idempotency.{Record, Options, Store, finish, replay_response, json_of}

pub data Payload : Type 0 where
  undefined null : Payload
  text buffer value : String → Payload

-- `payload ?? null`
abbrev or_null : Payload → Payload
or_null undefined = null
or_null null = null
or_null (text s) = text s
or_null (buffer s) = buffer s
or_null (value s) = value s

-- The value of a header: a text, or a list of them.
pub data Header : Type 0 where
  no_header : Header
  one : String → Header
  many : List String → Header

unfoldable pub to_header_string : Header → Option String
to_header_string no_header = none
to_header_string (one s) = some s
to_header_string (many []) = none
to_header_string (many (s ∷ ss)) = some s

-- The calls of a handler, and those that Express makes on the response itself.
pub data Call : Type 0 where
  json send : Payload → Call

module _ (stringify : Payload → String) where
  unfoldable pub serialize_body : Payload → String
  serialize_body (buffer s) = s
  serialize_body (text s) = s
  serialize_body undefined = ""
  serialize_body null = stringify null
  serialize_body (value s) = stringify (value s)

  -- `responseBody` after the calls, in turn: the last one sets it.
  unfoldable pub response_body : String → List Call → String
  response_body body [] = body
  response_body body (json p ∷ calls) = response_body (stringify (or_null p)) calls
  response_body body (send p ∷ calls) = response_body (serialize_body p) calls

  abbrev pub record_of : ℕ → ℕ → Header → List Call → Record
  record_of now status content_type calls = record {
    status = status;
    body = response_body "" calls;
    content_type = to_header_string content_type;
    created_at = now;
  }

  -- The `finish` listener of a response whose handler made the calls.
  unfoldable pub finish_response : Options → ℕ → String → ℕ → Header → List Call → Store → Store
  finish_response o now key status content_type calls s =
      finish o now key (record_of now status content_type calls) s

  -- A handler's `res.json`, which Express carries out by a `res.send` of the same text, is answered
  -- again with the JSON of its payload, where that is not empty and reads back as JSON.
  replayed_json :
      (parses : String → Bool) (now status : ℕ) (content_type : String) (p : Payload)
      → has_part "application/json" (to_lower content_type) ≡ true
      → is_empty (stringify (or_null p)) ≡ false
      → parses (stringify (or_null p)) ≡ true
      → (replay_response parses (
          record_of now status
            (one content_type)
            (json p ∷ send (text (stringify (or_null p))) ∷ []))).body
        ≡ json_of (stringify (or_null p))
  unfolding replay_response response_body serialize_body to_header_string
  replayed_json parses now status content_type p c e h = rw (c, e, h) refl
