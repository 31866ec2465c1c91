-- ===== src/Budget/Group/Retry.antt =====
-- A `reserve` of packages/quota/src/group-budget.service.ts that is sent again, because its answer
-- was lost.
use ucli_server.Budget.Ledger.Store.{Calendar, Fingerprint, find_operation, reference, reservation}
use ucli_server.Budget.Ledger.{Db, Entry, Group, Identity, is_reserved}
use ucli_server.Budget.Ensures.{
  Ensures, Ensures-bind, Ensures-found, Ensures-map, Ensures-ok, Ensures-require, Ensures-then,
}
use ucli_server.Budget.Ledger.Retry.{
  IsRepeat, Recorded, Recorded-after, SameAccess, SameAccess-refl, book-Recorded, period_of-Grows,
}
use ucli_server.Budget.Group.Reserve.{
  reserve, ReserveInput, assert_active_group_member, assert_live_key, reserve_new, reserved_entry,
}
use ucli_server.Base.{arith, same_option, some, ℕ, ◌&&◌, ◌∙◌, ◌≡◌}
use ucli_server.Budget.Result.{bind-ok, if_found-some, ok, require-bind}
use ucli_server.Budget.Money.{cny}
use ucli_server.Budget.Group.Rules.{lock_usage_group, period}
use ucli_server.Budget.Ledger.Booking.{request_operation, reserve_again}

lock-same :
    (db d : Db) (a k : ℕ) → SameAccess db d → lock_usage_group d a k ≡ lock_usage_group db a k
unfolding lock_usage_group
lock-same db d a k s = rw s.groups

member-same :
    (db d : Db) (i : Identity)
    → SameAccess db d
    → assert_active_group_member d i ≡ assert_active_group_member db i
unfolding assert_active_group_member
member-same db d i s = rw (s.members, s.groups)

key-same :
    (db d : Db) (i : Identity) (now : ℕ)
    → SameAccess db d
    → assert_live_key d i now ≡ assert_live_key db i now
unfolding assert_live_key
key-same db d i now s = rw s.keys

module _ (calendar : Calendar) (fingerprint : Fingerprint) where
  reserve_new-Recorded :
      (db : Db) (g : Group) (input : ReserveInput) (amount hash now k j : ℕ)
      → Ensures
          (Recorded db (request_operation input.request_id) hash)
          (reserve_new calendar fingerprint db g input amount hash now k j)
  unfolding reserve_new reserved_entry period
  reserve_new-Recorded db g input amount hash now k j =
      Ensures-then _ _ (period_of-Grows calendar db _ _ _ _ input.started_at) λ r _ f.
        Ensures-map _
          (book-Recorded r.1 r.0 amount hash (reserved_entry input r.0 amount hash k now)
            (ground arith))
          λ s done. Ensures-ok _ (Recorded-after f.access done)

  -- The second call meets the same rows as the first, and the entry of the first.
  reserve-again :
      (db d : Db) (input : ReserveInput) (later k j amount : ℕ) (g : Group) (e : Entry)
      → SameAccess db d
      → cny input.estimate_cny ≡ ok amount
      → lock_usage_group db input.identity.organization_id input.identity.group_id ≡ ok g
      → assert_active_group_member db input.identity ≡ ok tt
      → assert_live_key db input.identity later ≡ ok tt
      → find_operation d (request_operation input.request_id) ≡ some e
      → IsRepeat e (
          fingerprint
            (reservation input.request_id input.identity input.started_at amount input.usage))
      → reserve calendar fingerprint d input later k j ≡ ok (reference e, d)
  unfolding reserve reserve_again
  reserve-again db d input later k j amount g e same parsed locked member live found repeat =
      bind-ok _ _ parsed
      ∙ bind-ok _ _ (lock-same db d _ _ same ∙ locked)
      ∙ bind-ok _ _ (member-same db d input.identity same ∙ member)
      ∙ bind-ok _ _ (key-same db d input.identity later same ∙ live)
      ∙ if_found-some _ _ _ found
      ∙ require-bind _ _ _ repeat

  -- A reservation that succeeded and is sent again, while the credential is still live, returns the
  -- same reservation and leaves the database as it is.
  pub reserve_retry :
      (db : Db) (input : ReserveInput) (now later k j k' j' : ℕ)
      → assert_live_key db input.identity later ≡ ok tt
      → Ensures
          (λ r. reserve calendar fingerprint r.1 input later k' j' ≡ ok r)
          (reserve calendar fingerprint db input now k j)
  reserve_retry db input now later k j k' j' live =
      unfold reserve reserve_again in
      Ensures-bind _ _ λ amount parsed. Ensures-bind _ _ λ g locked. Ensures-bind _ _ λ _ member.
        Ensures-bind _ _ λ _ _.
          Ensures-found _ _ _
            (λ e found.
              Ensures-require
                (same_option e.snapshot.reservation_fingerprint _ && is_reserved e.status) _ _
                λ repeat. Ensures-ok _ (
                  reserve-again db db input later k' j' amount g e (SameAccess-refl db) parsed
                    locked member live found repeat))
            λ _. record {
              at = λ r e.
                  let kept = (reserve_new-Recorded db g input amount _ now k j).at r e in
                  rw kept.answer (
                    reserve-again db r.1 input later k' j' amount g kept.entry kept.access parsed
                      locked member live kept.found kept.repeat);
            }
