-- ===== src/Server/Nonces.antt =====
-- The nonces that were issued (`generateNonce`, `validateNonce`): each with its expiration.
use xylitol.Base.{ℕ, ◌+◌, ◌*◌, Bool, true, false, none, some, ltb, if◌then◌else◌, Bytes}
use xylitol.Dict.{Dict, lookup, insert, delete}
use xylitol.Server.Clock.{second}

abbrev pub Nonces : Type 0
Nonces = Dict ℕ

-- The nonce is random, and an argument here. It is good for five minutes.
unfoldable pub generate_nonce : ℕ → Bytes → Nonces → Nonces
unfolding insert
generate_nonce now nonce nonces = insert nonce (now + 300 * second) nonces

-- Both branches delete the nonce.
unfoldable pub validate_nonce : ℕ → Bytes → Nonces → Bool × Nonces
unfolding lookup delete
validate_nonce now nonce nonces = elim (lookup nonce nonces) [
  | none ↦ (false, nonces)
  | some expiration ↦
      if ltb expiration now then (false, delete nonce nonces) else (true, delete nonce nonces)
]
