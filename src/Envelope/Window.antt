-- ===== src/Envelope/Window.antt =====
-- app/protocol/envelope.py, "Verify protocol, sender binding, freshness and Ed25519 signature".
use paari_payments_protocol.Prelude.{
  leb, text_eq, eq_refl, ℕ, ◌+◌, ◌≤◌, ◌<◌, String, ◌≡◌, ◌≢◌, Bool, true, Option, none, some, arith,
  ◌&&◌, eq_iff,
}
use paari_payments_protocol.Envelope.{
  Crypto, number, Fields, verify_envelope, sign_envelope, time_of, get_item, is_fresh, is_current,
  signing_bytes, is_well_formed, unsigned_fields,
}

is_current-window :
    (i x : Option ℕ) (n m : ℕ) → is_current i x n ≡ true → is_current i x m ≡ true → m ≤ n + 420
unfolding is_current is_fresh
is_current-window none x n m h k = ground arith
is_current-window (some i) none n m h k = ground arith
is_current-window (some i) (some x) n m h k = ground arith

both : (a b c : Bool) → (a && b && c) ≡ true → b ≡ true
both a b c h = ground arith

-- Whatever the envelope, key, receiver and cryptography: if an envelope is accepted at two times,
-- the times are at most seven minutes apart (its lifetime of at most 300 seconds, and 60 seconds of
-- clock skew at each end), so a captured envelope is of no use afterwards.
pub accepted_within_window :
    (c : Crypto) (key : String) (e : Fields) (receiver : String) (n m : ℕ)
    → verify_envelope c key e receiver n ≡ true
    → verify_envelope c key e receiver m ≡ true
    → m ≤ n + 420
unfolding verify_envelope
accepted_within_window c key e receiver n m h k =
    is_current-window (time_of c (get_item "issued_at" e)) (time_of c (get_item "expires_at" e)) n m
      (both (is_well_formed receiver e) _ _ h) (both (is_well_formed receiver e) _ _ k)

-- Round trip: if `int` reads numbers as themselves and a signature made with the private key
-- verifies under the public key, then what `sign_envelope` makes with a lifetime of 1 to 300
-- seconds, for a named sender and receiver, is accepted by that receiver at every time from 60
-- seconds before it was issued to 60 seconds after it expires, and at no other time.
pub verify-sign_envelope :
    (c : Crypto) (now : ℕ) (fresh private public type receiver sender payload : String) (ttl t : ℕ)
    → ((n : ℕ) → c.int (number n) ≡ some n)
    → ((m : String) → c.verify_signature public m (c.sign private m) ≡ true)
    → fresh ≢ ""
    → sender ≢ ""
    → 0 < ttl
    → ttl ≤ 300
    → verify_envelope c public
        (sign_envelope c now fresh private type (some receiver) (some sender) payload ttl)
        receiver
        t
      ≡ (leb now (t + 60) && leb t (now + ttl + 60))
unfolding verify_envelope sign_envelope get_item signing_bytes is_well_formed unsigned_fields
    is_fresh
verify-sign_envelope c now fresh private public type receiver sender payload ttl t int_number sound
      f s low high =
    ground (
      arith,
      int_number now,
      int_number (now + ttl),
      sound (c.canonical_json (unsigned_fields type fresh sender receiver now (now + ttl) payload)),
      eq_iff fresh "",
      eq_iff sender "",
      eq_refl receiver,
    )
