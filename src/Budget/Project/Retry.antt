-- ===== src/Budget/Project/Retry.antt =====
-- A `reserve` of packages/quota/src/project-budget.service.ts that is sent again, because its answer was
-- lost.
use ucli_server.Budget.Ledger.Store.{
  Calendar, Fingerprint, find_operation, project_reservation, reference,
}
use ucli_server.Budget.Ledger.{Db, Entry, Project, is_reserved}
use ucli_server.Budget.Ensures.{
  Ensures, Ensures-bind, Ensures-found, Ensures-map, Ensures-ok, Ensures-require, Ensures-then,
}
use ucli_server.Budget.Ledger.Retry.{
  IsRepeat, Recorded, Recorded-after, SameAccess, SameAccess-refl, book-Recorded, period_of-Grows,
}
use ucli_server.Budget.Project.Reserve.{
  ReserveInput, admit, assert_credential, reserve, reserve_new, reserved_entry,
}
use ucli_server.Base.{arith, same_option, some, ℕ, ◌&&◌, ◌∙◌, ◌≡◌}
use ucli_server.Budget.Result.{bind-ok, if_found-some, ok, require-bind}
use ucli_server.Budget.Money.{cny}
use ucli_server.Budget.Project.Rules.{find_project, is_reservable, lock_project, period}
use ucli_server.Budget.Ledger.Booking.{request_operation, reserve_again}

admit-same :
    (db d : Db) (input : ReserveInput) (now : ℕ)
    → SameAccess db d
    → admit d input now ≡ admit db input now
unfolding admit lock_project find_project is_reservable assert_credential
admit-same db d input now s = rw (s.projects, s.groups, s.project_members, s.keys, s.devices)

module _ (calendar : Calendar) (fingerprint : Fingerprint) where
  reserve_new-Recorded :
      (db : Db) (project : Project) (input : ReserveInput) (amount hash now k j : ℕ)
      → Ensures
          (Recorded db (request_operation input.request_id) hash)
          (reserve_new calendar fingerprint db project input amount hash now k j)
  unfolding reserve_new reserved_entry period
  reserve_new-Recorded db project input amount hash now k j =
      Ensures-then _ _ (period_of-Grows calendar db _ _ _ _ input.started_at) λ r _ f.
        Ensures-map _
          (book-Recorded r.1 r.0 amount hash (reserved_entry input project r.0 amount hash k now)
            (ground arith))
          λ s done. Ensures-ok _ (Recorded-after f.access done)

  -- The second call meets the same rows as the first, and the entry of the first.
  reserve-again :
      (db d : Db) (input : ReserveInput) (later k j amount : ℕ) (project : Project) (e : Entry)
      → SameAccess db d
      → cny input.estimate_cny ≡ ok amount
      → admit db input later ≡ ok project
      → find_operation d (request_operation input.request_id) ≡ some e
      → IsRepeat e (
          fingerprint (
            project_reservation input.request_id input.project_id input.identity input.started_at
              amount input.usage))
      → reserve calendar fingerprint d input later k j ≡ ok (reference e, d)
  unfolding reserve reserve_again
  reserve-again db d input later k j amount project e same parsed admitted found repeat =
      bind-ok _ _ parsed
      ∙ bind-ok _ _ (admit-same db d input later same ∙ admitted)
      ∙ if_found-some _ _ _ found
      ∙ require-bind _ _ _ repeat

  -- A project's reservation that succeeded and is sent again, while the project, the member and the
  -- credential still pass the tests of `reserve`, returns the same reservation and leaves the database
  -- as it is.
  pub reserve_resent :
      (db : Db) (input : ReserveInput) (now later k j k' j' : ℕ) (project : Project)
      → admit db input later ≡ ok project
      → Ensures
          (λ r. reserve calendar fingerprint r.1 input later k' j' ≡ ok r)
          (reserve calendar fingerprint db input now k j)
  reserve_resent db input now later k j k' j' project admitted =
      unfold reserve reserve_again in
      Ensures-bind _ _ λ amount parsed. Ensures-bind _ _ λ first _.
        Ensures-found _ _ _
          (λ e found.
            Ensures-require
              (same_option e.snapshot.reservation_fingerprint _ && is_reserved e.status) _ _
              λ repeat. Ensures-ok _ (
                reserve-again db db input later k' j' amount project e (SameAccess-refl db) parsed
                  admitted found repeat))
          λ _. record {
            at = λ r e.
                let kept = (reserve_new-Recorded db first input amount _ now k j).at r e in
                rw kept.answer (
                  reserve-again db r.1 input later k' j' amount project kept.entry kept.access
                    parsed admitted kept.found kept.repeat);
          }
