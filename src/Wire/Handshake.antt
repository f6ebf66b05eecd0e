-- ===== src/Wire/Handshake.antt =====
-- The checks on the peer's Hello in internal/protocol/handshake.go. Token parsing (`ParseToken` of
-- internal/config) is a parameter: it answers the id that a token embeds. Which keys are known is
-- the configuration's `IsKnownPeer`. The exchange of frames and the signatures are not modelled.
use syncat.Prelude.{
  ◌==◌, if◌then◌else◌, Option-cases, length, Bytes, bytes_eq, bytes_eq_iff, ℤ, int_lt, int_eq_iff,
  int_lt-asymm, int_lt-total, pos, ◌≡◌, ap, ◌∙◌, ◌≢◌, inl, inr, Bool, true, false, ◌&&◌, not,
  Option, none, some, [], ◌∷◌, arith,
}

pub record Hello : Type 0 where
  pub proto_version : ℤ
  pub node_name : Bytes
  pub ed25519_pub : Bytes
  pub token : Bytes
  pub nonce : Bytes

pub data Rejection : Type 0 where
  bad_hello unsupported_version unauthorized : Rejection

unfoldable pub is_all_zero : Bytes → Bool
is_all_zero [] = true
is_all_zero (x ∷ b) = x == 0 && is_all_zero b

-- `none` is the error.
abbrev pub negotiate_version : ℤ → ℤ → ℤ → Option ℤ
negotiate_version our min_ver their =
    if int_lt their (pos 1)
    then none
    else let negotiated = if int_lt our their then our else their in
      if int_lt negotiated min_ver then none else some negotiated

module _ (parse_token : Bytes → Option Bytes) where
  -- Whether `validateHelloShape` returns nil.
  unfoldable pub validate_hello_shape : Hello → Bool
  unfolding is_all_zero
  validate_hello_shape h =
      length h.ed25519_pub == 32
      && not (is_all_zero h.ed25519_pub)
      && length h.nonce == 32
      && elim (parse_token h.token) [ none ↦ false | some id ↦ bytes_eq id h.ed25519_pub ]

module _ (parse_token : Bytes → Option Bytes) (is_known_peer : Bytes → Bool) where
  -- `none` is Go's nil error; `OnUnknownPeer` is called exactly with the answer `unauthorized`.
  unfoldable pub validate_peer_hello : ℤ → ℤ → Hello → Option Rejection
  unfolding validate_hello_shape
  validate_peer_hello our min_ver h =
      if not (validate_hello_shape parse_token h)
      then some bad_hello
      else elim (negotiate_version our min_ver h.proto_version) [
        | none ↦ some unsupported_version
        | some negotiated ↦ if is_known_peer h.ed25519_pub then none else some unauthorized
      ]

module _ (parse_token : Bytes → Option Bytes) where
  shape_sound :
      (h : Hello)
      → validate_hello_shape parse_token h ≡ true
      → (length h.ed25519_pub ≡ 32)
        × (is_all_zero h.ed25519_pub ≡ false)
        × (length h.nonce ≡ 32)
        × (parse_token h.token ≡ some h.ed25519_pub)
  unfolding validate_hello_shape
  shape_sound h v = elim (Option-cases (parse_token h.token)) [
    | inl e ↦ ground (arith, v, e)
    | inr (id, e) ↦
        let same : bytes_eq id h.ed25519_pub ≡ true = ground (arith, v, e) in
        (
          ground (arith, v),
          ground (arith, v),
          ground (arith, v),
          e ∙ ap some ((bytes_eq_iff id h.ed25519_pub).0 same),
        )
  ]

module _ (parse_token : Bytes → Option Bytes) (is_known_peer : Bytes → Bool) where
  -- A Hello gets past `validatePeerHello` only with a 32-byte key that is not all zeros, a 32-byte
  -- nonce and a token that embeds this very key, and only if the key is a known peer's and the
  -- two sides have a version in common.
  pub admitted_hello :
      (our min_ver : ℤ) (h : Hello)
      → validate_peer_hello parse_token is_known_peer our min_ver h ≡ none
      → (length h.ed25519_pub ≡ 32)
        × (is_all_zero h.ed25519_pub ≡ false)
        × (length h.nonce ≡ 32)
        × (parse_token h.token ≡ some h.ed25519_pub)
        × (is_known_peer h.ed25519_pub ≡ true)
        × (negotiate_version our min_ver h.proto_version ≢ none)
  unfolding validate_peer_hello
  admitted_hello our min_ver h v =
      let shape : validate_hello_shape parse_token h ≡ true = ground (arith, v) in
      let (key, nonzero, nonce, token) = shape_sound parse_token h shape in
      elim (Option-cases (negotiate_version our min_ver h.proto_version)) [
        | inl e ↦ ground (arith, v, e)
        | inr (n, e) ↦ (key, nonzero, nonce, token, ground (arith, v, e), ground (arith, e))
      ]

-- Where two nodes both accept the other's version they settle on the same one, whatever minimum
-- each insists on.
pub negotiate_version_agrees :
    (our their min_ver their_min a b : ℤ)
    → negotiate_version our min_ver their ≡ some a
    → negotiate_version their their_min our ≡ some b
    → a ≡ b
negotiate_version_agrees our their min_ver their_min a b p q =
    ground (arith, p, q, int_eq_iff our their, int_lt-asymm our their, int_lt-total our their)
