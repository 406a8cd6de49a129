-- ===== src/Stdio/Format/Template.antt =====
-- The loop of `kprintf` and `serial_kprintf` against templates: pieces of plain text and fields in
-- braces.
use mathlib.Core.List.{append_assoc}
use lord.Prelude.{
  ℕ, ◌≡◌, refl, sym, ap, ◌∙◌, ◌≢◌, inl, inr, false, Option, none, some, List, [], ◌∷◌, ◌++◌, ◌==◌,
  All, arith, Option-cases,
}
use lord.Stdio.Format.{
  Arg, Printers, directive, normal, format_specifier, emit, format_loop, kprintf, serial_kprintf,
  framebuffer, serial,
}

pub data Piece : Type 0 where
  plain : List ℕ → Piece
  field : List ℕ → Piece

-- The format that the pieces are written as.
unfoldable pub encode : List Piece → List ℕ
encode [] = []
encode (plain cs ∷ ps) = cs ++ encode ps
encode (field ks ∷ ps) = b'{' ∷ (ks ++ b'}' ∷ encode ps)

-- No brace opens in a plain text, and none closes in a field.
abbrev pub IsPiece : Piece → Type 0
IsPiece (plain cs) = All (λ c. c ≢ b'{') cs
IsPiece (field ks) = All (λ k. k ≢ b'}') ks

-- The directives of one field, one after another.
pub run_field : Printers → List ℕ → List Arg → Option (List ℕ × List Arg)
run_field p [] args = some ([], args)
run_field p (k ∷ ks) args = elim (directive p k args) [
  | none ↦ none
  | some r ↦ elim (run_field p ks r.1) [ none ↦ none | some q ↦ some (r.0 ++ q.0, q.1) ]
]

-- What the pieces print: plain text as it stands, fields by their directives.
unfoldable pub run_pieces : Printers → List Piece → List Arg → Option (List ℕ)
unfolding run_field
run_pieces p [] args = some []
run_pieces p (plain cs ∷ ps) args = emit cs (run_pieces p ps args)
run_pieces p (field ks ∷ ps) args = elim (run_field p ks args) [
  | none ↦ none
  | some r ↦ emit r.0 (run_pieces p ps r.1)
]

emit-emit : (xs ys : List ℕ) (o : Option (List ℕ)) → emit xs (emit ys o) ≡ emit (xs ++ ys) o
emit-emit xs ys none = refl
emit-emit xs ys (some zs) = ap some (sym (append_assoc xs ys zs))

emit-nil : (o : Option (List ℕ)) → emit [] o ≡ o
emit-nil none = refl
emit-nil (some zs) = refl

format_loop-plain :
    (p : Printers) (cs rest : List ℕ) (args : List Arg)
    → All (λ c. c ≢ b'{') cs
    → format_loop p normal (cs ++ rest) args ≡ emit cs (format_loop p normal rest args)
unfolding format_loop
format_loop-plain p [] rest args h = sym (emit-nil _)
format_loop-plain p (c ∷ cs) rest args h =
    let e : (c == b'{') ≡ false = ground (arith, h.0) in
    rw (e, format_loop-plain p cs rest args h.1) (emit-emit (c ∷ []) cs _)

-- What the loop does behind a field.
behind : Printers → List ℕ → Option (List ℕ × List Arg) → Option (List ℕ)
behind p rest none = none
behind p rest (some r) = emit r.0 (format_loop p normal rest r.1)

behind-field :
    (p : Printers) (rest out : List ℕ) (o : Option (List ℕ × List Arg))
    → emit out (behind p rest o)
      ≡ behind p rest (elim o [ none ↦ none | some q ↦ some (out ++ q.0, q.1) ])
unfolding behind
behind-field p rest out none = refl
behind-field p rest out (some q) = emit-emit out q.0 _

format_loop-field :
    (p : Printers) (ks rest : List ℕ) (args : List Arg)
    → All (λ k. k ≢ b'}') ks
    → format_loop p format_specifier (ks ++ b'}' ∷ rest) args ≡ behind p rest (run_field p ks args)
unfolding format_loop run_field behind directive
format_loop-field p [] rest args h = refl
format_loop-field p (k ∷ ks) rest args h = elim (Option-cases (directive p k args)) [
  | inl bad ↦ rw (format_loop, run_field, bad) refl
  | inr (r, good) ↦
      let e : (k == b'}') ≡ false = ground (arith, h.0) in
      rw (format_loop, run_field, good, e, format_loop-field p ks rest r.1 h.1)
        (behind-field p rest r.0 (run_field p ks r.1))
]

pub format_loop-encode :
    (p : Printers) (ps : List Piece) (args : List Arg)
    → All IsPiece ps
    → format_loop p normal (encode ps) args ≡ run_pieces p ps args
unfolding format_loop encode run_pieces behind
format_loop-encode p [] args h = refl
format_loop-encode p (plain cs ∷ ps) args h =
    format_loop-plain p cs (encode ps) args h.0 ∙ ap (emit cs) (format_loop-encode p ps args h.1)
format_loop-encode p (field ks ∷ ps) args h = elim (Option-cases (run_field p ks args)) [
  | inl bad ↦ format_loop-field p ks (encode ps) args h.0 ∙ rw (bad, run_pieces) refl
  | inr (r, good) ↦
      format_loop-field p ks (encode ps) args h.0
      ∙ rw (good, behind, run_pieces) (ap (emit r.0) (format_loop-encode p ps r.1 h.1))
]

-- For a format written from pieces, both loops print plain text as it stands and each field by its
-- directives in order, and fail where an argument is missing or of the other kind.
pub kprintf-encode :
    (ps : List Piece) (args : List Arg)
    → All IsPiece ps
    → (kprintf (encode ps) args ≡ run_pieces framebuffer ps args)
      × (serial_kprintf (encode ps) args ≡ run_pieces serial ps args)
unfolding kprintf serial_kprintf
kprintf-encode ps args h =
    (format_loop-encode framebuffer ps args h, format_loop-encode serial ps args h)
