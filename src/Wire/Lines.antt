-- ===== src/Wire/Lines.antt =====
-- internal/protocol/protocol.go: lines that are written and read.
use headless_terminal.Base.{
  ◌≡◌, refl, ap, ◌∙◌, Bool, true, false, Option, none, some, [], ◌∷◌, ◌++◌, append_assoc, Bytes,
  ◌==◌, if◌then◌else◌, arith, Bool-cases, inl, inr,
}
use headless_terminal.Wire.{
  lines_from, lines, line_of, newline, Codec, Json, Op, Params, Reply, op_name, encode_params,
  decode_params, encode_reply, write_ok, write_payload,
}

-- No byte of the text is a newline.
abbrev pub is_one_line : Bytes → Bool
is_one_line [] = true
is_one_line (c ∷ s) = if c == newline then false else is_one_line s

lines_from-append :
    (cur s rest : Bytes)
    → is_one_line s ≡ true
    → lines_from cur (s ++ newline ∷ rest) ≡ (cur ++ (s ++ newline ∷ [])) ∷ lines rest
unfolding lines_from lines
lines_from-append cur [] rest h = refl
lines_from-append cur (c ∷ s) rest h = elim (Bool-cases (c == newline)) [
  | inl hit ↦ absurd (ground arith)
  | inr other ↦
      rw (lines_from, other)
        (lines_from-append (cur ++ c ∷ []) s rest (ground arith)
          ∙ ap (λ (l : Bytes). l ∷ lines rest) (append_assoc cur (c ∷ []) (s ++ newline ∷ [])))
]

-- A line in front is the first that is read.
pub lines-append :
    (s rest : Bytes)
    → is_one_line s ≡ true
    → lines (s ++ newline ∷ rest) ≡ (s ++ newline ∷ []) ∷ lines rest
unfolding lines
lines-append s rest h = lines_from-append [] s rest h

-- The value goes through JSON: it has a text of one line, and the line is read back as the value.
pub record Carries {A : Type 0} (c : Codec A) (a : A) : Type 0 where
  pub text : Bytes
  pub marshals : c.marshal a ≡ some text
  pub one_line : is_one_line text ≡ true
  pub unmarshals : c.unmarshal (text ++ newline ∷ []) ≡ some a

-- What is written of such a value is the first line that is read.
pub lines-line_of :
    {A : Type 0} (c : Codec A) (a : A) (rest : Bytes) (k : Carries c a)
    → lines (line_of (c.marshal a) ++ rest) ≡ (k.text ++ newline ∷ []) ∷ lines rest
lines-line_of c a rest k =
    ap (λ o. lines (line_of o ++ rest)) k.marshals
    ∙ (ap lines (append_assoc k.text (newline ∷ []) rest) ∙ lines-append k.text rest k.one_line)

-- The params go through JSON, on their own and in the request.
pub record CarriesRequest (json : Json) (op : Op) (p : Params op) : Type 0 where
  pub raw : Option Bytes
  pub encodes : encode_params json op p ≡ some raw
  pub decodes : decode_params json op raw ≡ some p
  pub request : Carries json.request (record { op = op_name op; params = raw })

-- What writeOK writes of a result that JSON takes.
pub write_ok_lem :
    (json : Json) (op : Op) (r : Reply op) (payload : Option Bytes)
    → encode_reply json op r ≡ some payload
    → write_ok json op r
      ≡ line_of (json.response.marshal (record { is_ok = true; error = none; payload = payload }))
unfolding write_ok write_payload
write_ok_lem json op r payload e = ap (write_payload json) e
