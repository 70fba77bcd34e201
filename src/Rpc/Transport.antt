-- ===== src/Rpc/Transport.antt =====
-- rust/acp-types/src/transport.rs: frames of JSON over a stream of bytes.
pub mod Frames
use slight.Base.{
  ℕ, zero, suc, ◌^◌, ◌*◌, ltb, eqb, List, [], ◌∷◌, ◌++◌, Option, none, some, Bool, true, false,
  ◌&&◌, ◌||◌, length, if◌then◌else◌,
}
use slight.Base.Exec.{Result, ok, err}
use slight.Rpc.Wire.{Peer, Codec, WireError, io, malformed, AcpMessage, classify_inbound}

abbrev pub max_frame_bytes : ℕ
max_frame_bytes = 16777216

-- `read_line`: up to the first newline, and with it.
unfoldable pub take_line : List ℕ → List ℕ × List ℕ
take_line [] = ([], [])
take_line (b ∷ bs) =
    let (line, rest) = take_line bs in if eqb b 10 then (b ∷ [], bs) else (b ∷ line, rest)

abbrev pub is_blank : List ℕ → Bool
is_blank [] = true
is_blank (_ ∷ _) = false

abbrev pub is_end : ℕ → Bool
is_end b = eqb b 10 || eqb b 13

-- `trim_end_matches(['\n', '\r'])`
unfoldable pub trim_newlines : List ℕ → List ℕ
trim_newlines [] = []
trim_newlines (b ∷ bs) =
    let rest = trim_newlines bs in if is_end b && is_blank rest then [] else b ∷ rest

-- `write_encoded`: the bytes that are written.
unfoldable pub write_encoded : List ℕ → List ℕ
unfolding trim_newlines
write_encoded frame = trim_newlines frame ++ 10 ∷ []

module _ {P : Peer} (C : Codec P) where
  -- What one line of the input gives; none where it is blank.
  unfoldable pub frame_of : List ℕ → Option (Result (Option (List ℕ)) WireError)
  unfolding trim_newlines
  frame_of line = if is_blank line then some (ok none) else elim (C.invalid_utf8 line) [
    | some text ↦ some (err (io text))
    | none ↦
        if ltb max_frame_bytes (length line)
        then some (err (malformed "frame exceeds 16777216 bytes"))
        else if is_blank (trim_newlines line)
        then none
        else some (ok (some (trim_newlines line)))
  ]

  -- The loop; none where the fuel ran out.
  unfoldable pub read_on : ℕ → List ℕ → Option (Result (Option (List ℕ)) WireError × List ℕ)
  unfolding take_line frame_of
  read_on zero input = none
  read_on (suc fuel) input =
      let later = read_on fuel (take_line input).1 in
      elim (frame_of (take_line input).0) [ some r ↦ some (r, (take_line input).1) | none ↦ later ]

  -- Every blank line takes a byte at least.
  unfoldable pub read_frame : List ℕ → Option (Result (Option (List ℕ)) WireError × List ℕ)
  unfolding read_on
  read_frame input = read_on (suc (length input)) input

  unfoldable pub recv_inbound : List ℕ → Option (Result (Option (AcpMessage P)) WireError × List ℕ)
  unfolding read_frame
  recv_inbound input = elim (read_frame input) [
    | none ↦ none
    | some (err e, rest) ↦ some (err e, rest)
    | some (ok none, rest) ↦ some (ok none, rest)
    | some (ok (some line), rest) ↦
        some
          (elim (classify_inbound C line) [ ok message ↦ ok (some message) | err e ↦ err e ], rest)
  ]
