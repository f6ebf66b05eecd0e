-- ===== src/Wire/Frame.antt =====
-- The framing of internal/protocol/message.go: `encodeFrame` and `ReadFrame`. A message type is
-- its byte. The stream is the bytes that arrive before it ends; a read error other than the end of
-- the stream is not modelled.
use syncat.Prelude.{
  ltb, ◌==◌, if◌then◌else◌, Bool-cases, length, take, drop, length-append, take-append, drop-append,
  length-take, Bytes, ℕ, ◌+◌, ◌*◌, ◌/◌, ◌%◌, ◌^◌, ◌≤◌, ◌<◌, ◌≡◌, inl, inr, Option, none, some, [],
  ◌∷◌, ◌++◌, arith,
}

abbrev pub max_frame_size : ℕ
max_frame_size = 4 * 1024 * 1024

-- binary.BigEndian.PutUint32
abbrev pub put_uint32 : ℕ → Bytes
put_uint32 n = (n / 2 ^ 24) % 256 ∷ (n / 2 ^ 16) % 256 ∷ (n / 2 ^ 8) % 256 ∷ n % 256 ∷ []

-- binary.BigEndian.Uint32
abbrev pub uint32_of : ℕ → ℕ → ℕ → ℕ → ℕ
uint32_of a b c d = a * 2 ^ 24 + b * 2 ^ 16 + c * 2 ^ 8 + d

-- `none` is the error of a body over the bound.
unfoldable pub encode_frame : ℕ → Bytes → Option Bytes
encode_frame typ payload =
    if ltb max_frame_size (1 + length payload)
    then none
    else some (put_uint32 (1 + length payload) ++ typ ∷ payload)

pub data Frame : Type 0 where
  -- A frame's type and payload, and the stream after it.
  frame : ℕ → Bytes → Bytes → Frame
  end_of_stream short_header zero_length : Frame
  too_big short_body : ℕ → Frame

abbrev pub open_body : Bytes → Bytes → Frame
open_body [] rest = zero_length
open_body (typ ∷ payload) rest = frame typ payload rest

unfoldable pub read_body : ℕ → Bytes → Frame
read_body n s =
    if n == 0
    then zero_length
    else if ltb max_frame_size n
    then too_big n
    else if ltb (length s) n
    then short_body n
    else open_body (take n s) (drop n s)

unfoldable pub read_frame : Bytes → Frame
unfolding read_body
read_frame [] = end_of_stream
read_frame (a ∷ b ∷ c ∷ d ∷ s) = read_body (uint32_of a b c d) s
read_frame (a ∷ s) = short_header

uint32_of-put :
    (n : ℕ)
    → n < 2 ^ 32
    → uint32_of ((n / 2 ^ 24) % 256) ((n / 2 ^ 16) % 256) ((n / 2 ^ 8) % 256) (n % 256) ≡ n
uint32_of-put n h = omega arith

read_body-exact :
    (n : ℕ) (typ : ℕ) (payload rest : Bytes)
    → n ≡ length (typ ∷ payload)
    → n ≤ max_frame_size
    → read_body n ((typ ∷ payload) ++ rest) ≡ frame typ payload rest
unfolding read_body
read_body-exact n typ payload rest e h = ground (
  arith,
  take-append n (typ ∷ payload) rest e,
  drop-append n (typ ∷ payload) rest e,
  length-append payload rest,
)

-- A frame that `encodeFrame` builds is read back as its type and payload, and reading stops right
-- after it, whatever follows on the stream.
pub read_frame-encode_frame :
    (typ : ℕ) (payload buf rest : Bytes)
    → encode_frame typ payload ≡ some buf
    → read_frame (buf ++ rest) ≡ frame typ payload rest
unfolding encode_frame read_frame
read_frame-encode_frame typ payload buf rest e =
    elim (Bool-cases (ltb max_frame_size (1 + length payload))) [
      | inl h ↦ ground (arith, h, e)
      | inr h ↦
          let q : put_uint32 (1 + length payload) ++ typ ∷ payload ≡ buf = ground (arith, h, e) in
          rw (← q, uint32_of-put (1 + length payload) (ground (arith, h)))
            (read_body-exact (1 + length payload) typ payload rest (omega arith)
              (ground (arith, h)))
    ]

open_body-length :
    (b others : Bytes) (typ : ℕ) (payload rest : Bytes)
    → open_body b others ≡ frame typ payload rest
    → length payload < length b
open_body-length [] others typ payload rest e = ground (arith, e)
open_body-length (t ∷ b) others typ payload rest e =
    let q : b ≡ payload = ground (arith, e) in rw (q) (omega arith)

read_body-bounded :
    (n : ℕ) (s : Bytes) (typ : ℕ) (payload rest : Bytes)
    → read_body n s ≡ frame typ payload rest
    → length payload < max_frame_size
unfolding read_body
read_body-bounded n s typ payload rest e =
    ground (arith, e, length-take n s, open_body-length (take n s) (drop n s) typ payload rest)

-- `ReadFrame` never hands out a payload over the bound less the type's byte, whatever arrives.
pub read_frame_bounded :
    (s : Bytes) (typ : ℕ) (payload rest : Bytes)
    → read_frame s ≡ frame typ payload rest
    → length payload < max_frame_size
unfolding read_frame
read_frame_bounded [] typ payload rest e = ground (arith, e)
read_frame_bounded (a ∷ []) typ payload rest e = ground (arith, e)
read_frame_bounded (a ∷ b ∷ []) typ payload rest e = ground (arith, e)
read_frame_bounded (a ∷ b ∷ c ∷ []) typ payload rest e = ground (arith, e)
read_frame_bounded (a ∷ b ∷ c ∷ d ∷ s) typ payload rest e =
    read_body-bounded (uint32_of a b c d) s typ payload rest e
