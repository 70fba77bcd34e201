-- ===== src/Rpc/Transport/Frames.antt =====
-- rust/acp-types/src/transport.rs: reading ends, and gives back what was written.
use mathlib.Core.List.{append_assoc}
use slight.Base.{
  ℕ, zero, suc, ◌<◌, ◌≤◌, eqb, ltb, not, List, [], ◌∷◌, ◌++◌, Option, none, some, Bool, true, false,
  ◌&&◌, ◌≡◌, refl, ◌⊎◌, inl, inr, Bool-cases, ◌∙◌, ap, length, length-append, arith, Option-cases,
}
use slight.Base.Exec.{Result, ok}
use slight.Rpc.Wire.{Peer, Codec, WireError}
use slight.Rpc.Transport.{
  max_frame_bytes, take_line, is_blank, is_end, trim_newlines, write_encoded, frame_of, read_on,
  read_frame,
}

-- No byte is a newline.
unfoldable pub single_line : List ℕ → Bool
single_line [] = true
single_line (b ∷ bs) = not (eqb b 10) && single_line bs

take_line-line :
    (line rest : List ℕ)
    → single_line line ≡ true
    → take_line (line ++ 10 ∷ rest) ≡ (line ++ 10 ∷ [], rest)
unfolding take_line single_line
take_line-line [] rest h = refl
take_line-line (b ∷ bs) rest h =
    let later = take_line-line bs rest (ground (arith, h)) in
    let other : eqb b 10 ≡ false = ground (arith, h) in rw (later, other) refl

length-take_line : (input : List ℕ) → length (take_line input).1 ≤ length input
unfolding take_line
length-take_line [] = omega arith
length-take_line (b ∷ bs) = ground (arith, length-take_line bs)

length-take_line_cons : (b : ℕ) (bs : List ℕ) → length (take_line (b ∷ bs)).1 < length (b ∷ bs)
unfolding take_line
length-take_line_cons b bs = ground (arith, length-take_line bs)

shorter_than :
    (middle input rest : List ℕ) (A : Type 0)
    → length middle < length input
    → ((middle ≡ []) × (rest ≡ []) × A) ⊎ (length rest < length middle)
    → length rest < length input
shorter_than middle input rest A h (inl (e, none_left, _)) =
    rw none_left (omega (arith, ap length e, h))
shorter_than middle input rest A h (inr k) = omega arith

trim_newlines-snoc : (bs : List ℕ) → trim_newlines (bs ++ 10 ∷ []) ≡ trim_newlines bs
unfolding trim_newlines
trim_newlines-snoc [] = refl
trim_newlines-snoc (b ∷ bs) = rw (trim_newlines-snoc bs) refl

trim_newlines-trim_newlines : (bs : List ℕ) → trim_newlines (trim_newlines bs) ≡ trim_newlines bs
unfolding trim_newlines
trim_newlines-trim_newlines [] = refl
trim_newlines-trim_newlines (b ∷ bs) = elim (Bool-cases (is_end b && is_blank (trim_newlines bs))) [
  | inl ends ↦ rw (trim_newlines, ends) refl
  | inr stays ↦ rw (trim_newlines, stays, trim_newlines, trim_newlines-trim_newlines bs, stays) refl
]

module _ {P : Peer} (C : Codec P) where
  -- What a read gives: a result, and an input that is shorter unless it was empty.
  pub record IsRead (input : List ℕ) (o : Option (Result (Option (List ℕ)) WireError × List ℕ))
      : Type 0 where
    pub outcome : Result (Option (List ℕ)) WireError
    pub rest : List ℕ
    pub given : o ≡ some (outcome, rest)
    pub shorter : ((input ≡ []) × (rest ≡ []) × (outcome ≡ ok none)) ⊎ (length rest < length input)

  -- Fuel that is more than the input is enough.
  read_on-IsRead :
      (fuel : ℕ) (input : List ℕ) → length input < fuel → IsRead input (read_on C fuel input)
  unfolding read_on frame_of
  read_on-IsRead zero input h = absurd (omega arith)
  read_on-IsRead (suc fuel) [] h = record {
    outcome = ok none;
    rest = [];
    given = unfold take_line in refl;
    shorter = inl (refl, refl, refl);
  }
  read_on-IsRead (suc fuel) (b ∷ bs) h =
      let input = b ∷ bs in
      let less : length (take_line input).1 < length input = length-take_line_cons b bs in
      elim (Option-cases (frame_of C (take_line input).0)) [
        | inr (r, e) ↦ record {
          outcome = r;
          rest = (take_line input).1;
          given = rw (e, read_on) refl;
          shorter = inr less;
        }
        | inl blank ↦
            let later = read_on-IsRead fuel (take_line input).1 (omega (arith, less)) in
            record {
              outcome = later.outcome;
              rest = later.rest;
              given = rw (blank, read_on) later.given;
              shorter =
                  inr (shorter_than (take_line input).1 input later.rest _ less later.shorter);
            }
      ]

  -- Reading a frame always gives a frame, the end or an error, the model's fuel being enough; it
  -- takes at least a byte from the input, unless the input is empty and the end is given.
  pub read_frame-IsRead : (input : List ℕ) → IsRead input (read_frame C input)
  unfolding read_frame
  read_frame-IsRead input = read_on-IsRead (suc (length input)) input (omega arith)

  frame_of-line :
      (line : List ℕ)
      → is_blank line ≡ false
      → C.invalid_utf8 line ≡ none
      → length line ≤ max_frame_bytes
      → is_blank (trim_newlines line) ≡ false
      → frame_of C line ≡ some (ok (some (trim_newlines line)))
  unfolding frame_of
  frame_of-line line full valid fits kept =
      let small : ltb max_frame_bytes (length line) ≡ false = ground (arith, fits) in
      rw (full, frame_of, valid, small, kept) refl

  read_on-line :
      (fuel : ℕ) (input line rest : List ℕ) (r : Result (Option (List ℕ)) WireError)
      → take_line input ≡ (line, rest)
      → frame_of C line ≡ some r
      → read_on C (suc fuel) input ≡ some (r, rest)
  unfolding read_on
  read_on-line fuel input line rest r e h =
      let given : frame_of C (take_line input).0 ≡ some r = ap (λ p. frame_of C p.0) e ∙ h in
      rw (given, read_on) (ap (λ p. some (r, p.1)) e)

  is_blank-snoc : (bs : List ℕ) (b : ℕ) → is_blank (bs ++ b ∷ []) ≡ false
  is_blank-snoc [] b = refl
  is_blank-snoc (c ∷ bs) b = refl

  -- A frame that is one line of valid text, not empty and shorter than 16 MiB once its newlines
  -- are trimmed, is read back, so trimmed, from what was written, and the bytes after it are left.
  pub read_frame-write_encoded :
      (frame rest : List ℕ)
      → single_line (trim_newlines frame) ≡ true
      → is_blank (trim_newlines frame) ≡ false
      → C.invalid_utf8 (write_encoded frame) ≡ none
      → length (trim_newlines frame) < max_frame_bytes
      → read_frame C (write_encoded frame ++ rest) ≡ some (ok (some (trim_newlines frame)), rest)
  unfolding read_frame write_encoded
  read_frame-write_encoded frame rest single kept valid fits =
      let body = trim_newlines frame in
      let same : trim_newlines (body ++ 10 ∷ []) ≡ body =
        trim_newlines-snoc body ∙ trim_newlines-trim_newlines frame in
      let line : take_line ((body ++ 10 ∷ []) ++ rest) ≡ (body ++ 10 ∷ [], rest) =
        ap take_line (append_assoc body (10 ∷ []) rest) ∙ take_line-line body rest single in
      let given : frame_of C (body ++ 10 ∷ [])
          ≡ some (ok (some (trim_newlines (body ++ 10 ∷ [])))) =
        frame_of-line (body ++ 10 ∷ []) (is_blank-snoc body 10) valid
          (omega (arith, length-append body (10 ∷ []), fits)) (ap is_blank same ∙ kept) in
      read_on-line (length (write_encoded frame ++ rest)) (write_encoded frame ++ rest) _ rest _
        line given
      ∙ ap (λ l. some (ok (some l), rest)) same
