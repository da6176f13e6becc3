-- ===== src/Redis/Validity.antt =====
-- redis_queue.go: sequences of scripts by any number of clients.
use fluxo.Common.{
  ℕ, ◌≡◌, inl, inr, Bool, none, String, List, [], ◌∷◌, lookup, ◌==ₛ◌, Option-cases, Bool-cases,
}
use fluxo.Redis.{Keys, dequeue_script, ack_script, nack_script, renew_script, put, write_payload}
use fluxo.Redis.Moves.{
  IsValid, dequeue_script-IsValid, remove-IsValid, give_back-IsValid, put-IsValid,
  write_payload-IsValid, renew-IsValid, owner-leased,
}

-- One script or command that changes the keys. A `Nack` is the command that rewrites the payload,
-- and then its script; a `Dequeue` is one script for each time that it polls.
pub data KeyCall (blob : Type 0) : Type 0 where
  puts : String → blob → ℕ → KeyCall blob
  takes : ℕ → ℕ → String → KeyCall blob
  renews : String → String → ℕ → KeyCall blob
  acks : String → String → KeyCall blob
  rewrites : String → blob → KeyCall blob
  nacks : String → String → ℕ → KeyCall blob

module _ (round : ℕ → ℕ) (precedes : String → String → Bool) where
  unfoldable pub key_call : {blob : Type 0} → KeyCall blob → Keys blob → Keys blob
  key_call (puts id bytes not_before) q = put round precedes id bytes not_before q
  key_call (takes now lease_ms owner) q = (dequeue_script round precedes now lease_ms owner q).0
  key_call (renews id owner expiry) q = (renew_script round precedes id owner expiry q).0
  key_call (acks id owner) q = (ack_script round precedes id owner q).0
  key_call (rewrites id bytes) q = write_payload round precedes id bytes q
  key_call (nacks id owner not_before) q = (nack_script round precedes id owner not_before q).0

  unfoldable pub key_calls : {blob : Type 0} → List (KeyCall blob) → Keys blob → Keys blob
  key_calls [] q = q
  key_calls (call ∷ calls) q = key_calls calls (key_call call q)

  module _ {blob : Type 0} where
    -- The call puts in no id that is leased.
    abbrev pub IsFresh : KeyCall blob → Keys blob → Type 0
    IsFresh (puts id bytes not_before) q = lookup id q.inflight ≡ none
    IsFresh _ q = Unit {0}

    pub key_call-IsValid :
        (call : KeyCall blob) (q : Keys blob)
        → IsValid q
        → IsFresh call q
        → IsValid (key_call call q)
    unfolding key_call ack_script nack_script renew_script
    key_call-IsValid (puts id bytes time) q valid fresh =
        put-IsValid round precedes id bytes time q valid fresh
    key_call-IsValid (takes now lease_ms owner) q valid fresh =
        dequeue_script-IsValid round precedes now lease_ms owner q valid
    key_call-IsValid (rewrites id bytes) q valid fresh =
        write_payload-IsValid round precedes id bytes q valid
    key_call-IsValid (renews id owner expiry) q valid fresh =
        elim (Option-cases (lookup id q.owner)) [
          | inl e ↦ rw (e, key_call, renew_script) valid
          | inr (cur, e) ↦ elim (Bool-cases (cur ==ₛ owner)) [
            | inl same ↦
                rw (e, same, key_call, renew_script)
                  (renew-IsValid round precedes id _ q valid
                    (owner-leased round precedes id cur q valid e))
            | inr other ↦ rw (e, other, key_call, renew_script) valid
          ]
        ]
    key_call-IsValid (acks id owner) q valid fresh = elim (Option-cases (lookup id q.owner)) [
      | inl e ↦ rw (e, key_call, ack_script) valid
      | inr (cur, e) ↦ elim (Bool-cases (cur ==ₛ owner)) [
        | inl same ↦
            rw (e, same, key_call, ack_script)
              (remove-IsValid round precedes id q valid
                (owner-leased round precedes id cur q valid e))
        | inr other ↦ rw (e, other, key_call, ack_script) valid
      ]
    ]
    key_call-IsValid (nacks id owner time) q valid fresh = elim (Option-cases (lookup id q.owner)) [
      | inl e ↦ rw (e, key_call, nack_script) valid
      | inr (cur, e) ↦ elim (Bool-cases (cur ==ₛ owner)) [
        | inl same ↦
            rw (e, same, key_call, nack_script)
              (give_back-IsValid round precedes id _ _ q valid
                (owner-leased round precedes id cur q valid e))
        | inr other ↦ rw (e, other, key_call, nack_script) valid
      ]
    ]

    -- No call puts in an id that is leased at that time.
    abbrev pub AllFresh : List (KeyCall blob) → Keys blob → Type 0
    AllFresh [] q = Unit {0}
    AllFresh (call ∷ calls) q = IsFresh call q × AllFresh calls (key_call call q)

    -- Whatever scripts run in whatever order, as long as no id is put in while it is leased: an id
    -- is ready or leased, never both, exactly if it has a time; it has an owner exactly if it is
    -- leased; and no id that has a time lacks a payload.
    pub key_calls-IsValid :
        (calls : List (KeyCall blob)) (q : Keys blob)
        → IsValid q
        → AllFresh calls q
        → IsValid (key_calls calls q)
    unfolding key_calls
    key_calls-IsValid [] q valid fresh = valid
    key_calls-IsValid (call ∷ calls) q valid (fresh, rest) =
        key_calls-IsValid calls (key_call call q) (key_call-IsValid call q valid fresh) rest
