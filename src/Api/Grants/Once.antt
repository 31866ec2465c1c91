-- ===== src/Api/Grants/Once.antt =====
-- A link of apps/api/src/device-grants.service.ts serves one device: `redeem` as a call that may throw.
use ucli_server.Base.{ℕ, ◌≡◌, refl, Option, none, some, inl, inr, ◌⊎◌, ap, sym, ◌∙◌, subst, ◌==◌}
use ucli_server.Base.Table.{find?}
use ucli_server.Budget.Result.{Result, Error, ok, err, or_throw-eq-ok}
use ucli_server.Budget.Ensures.{Ensures, Ensures-ok, Ensures-bind, Ensures-require}
use ucli_server.Api.Grants.{Text, Grant, Link, GrantDb}
use ucli_server.Api.Grants.Store.{find_grant, find_link, audited}
use ucli_server.Api.Grants.Redeem.{
  Credentials, DeviceInput, DeviceBody, locate, after_redeem, redeem_with, redeem, validate_redeem,
  validate_link,
}
use ucli_server.Api.Grants.Life.{view, Acts, Only, redeem_act, Reach-device}
use ucli_server.Api.Grants.Rows.{GrantIds, Later, Later-refl}
use ucli_server.Api.Grants.Binding.{Served, redeem_located-Served}

-- The grant of the link with this hash is bound to a device.
abbrev pub Bound : GrantDb → Text → ℕ → Type 0
Bound db t d =
    (l : Link) × (g : Grant) × (find_link db t ≡ some l)
    × (find_grant db l.device_grant_id ≡ some g)
    × (g.device_id ≡ some d)

-- It stays bound.
pub Bound-Later :
    {acts : Acts} (a b : GrantDb) (t : Text) (d : ℕ)
    → Later acts a b
    → GrantIds a.grants
    → Bound a t d
    → Bound b t d
unfolding find_grant find_link
Bound-Later a b t d later ids (l, g, at_l, at_g, bound) =
    let m = later.1 t l at_l in
    let h = (later.0 ids).1 l.device_grant_id g at_g in
    (
      m.0,
      h.0,
      m.1,
      subst (λ k. find? (λ x. x.id == k) b.grants ≡ some h.0) (sym m.3) h.1,
      Reach-device (view g) (view h.0) d h.2 bound,
    )

locate-found :
    (db : GrantDb) (t : Text)
    → Ensures
        (λ res. (find_link db t ≡ some res.0) × (find_grant db res.0.device_grant_id ≡ some res.1))
        (locate db t)
unfolding locate
locate-found db t =
    Ensures-bind _ _
      λ l h. Ensures-bind _ _ λ g h₁. Ensures-ok _ (or_throw-eq-ok _ _ l h, or_throw-eq-ok _ _ g h₁)

validate_redeem-text :
    (t : Text) (body : Option DeviceBody)
    → Ensures (λ valid. valid.0 ≡ t) (validate_redeem (some t) body)
unfolding validate_redeem validate_link
validate_redeem-text t body =
    Ensures-bind _ _ λ text h. Ensures-bind _ _ λ input h₁. Ensures-ok _ ((text_of t).at text h)
  where
    text_of : (t : Text) → Ensures (λ text. text ≡ t) (validate_link (some t))
    text_of t = Ensures-require _ _ _ λ h. Ensures-ok _ refl

-- The device of a redemption is the one that the grant was bound to.
same_device :
    (db : GrantDb) (l : Link) (g : Grant) (t : Text) (d e : ℕ)
    → find_link db t ≡ some l
    → find_grant db l.device_grant_id ≡ some g
    → (g.device_id ≡ none) ⊎ (g.device_id ≡ some e)
    → Bound db t d
    → e ≡ d
same_device db l g t d e at_l at_g now_bound (m, h, at_m, at_h, bound) =
    let same : m ≡ l = some_inj m l (sym at_m ∙ at_l) in
    let at_l_h : find_grant db l.device_grant_id ≡ some h =
      subst (λ x. find_grant db x.device_grant_id ≡ some h) same at_h in
    let same_grant : h ≡ g = some_inj h g (sym at_l_h ∙ at_g) in
    let here : g.device_id ≡ some d = subst (λ x. x.device_id ≡ some d) same_grant bound in
    elim now_bound [ inl n ↦ absurd (cc) | inr b ↦ some_inj e d (sym b ∙ here) ]
  where
    some_inj : {A : Type 0} (x y : A) → some x ≡ some y → x ≡ y
    some_inj x y h = cc

-- The grant of the link with this hash is not deleted.
abbrev pub Usable : GrantDb → Text → Type 0
Usable db t =
    (l : Link) × (g : Grant) × (find_link db t ≡ some l)
    × (find_grant db l.device_grant_id ≡ some g)
    × (g.deleted_at ≡ none)

-- What a redemption of the link with the hash `t` does: if it answers, the grant is bound to the device
-- of the answer, which is the one it was bound to before, if any, and it was not deleted.
abbrev pub Redeems : ℕ → GrantDb → Text → GrantDb × Result Credentials → Type 0
Redeems now db t res =
    Later (Only (redeem_act now)) db res.0
    × ((a : Credentials)
        → res.1 ≡ ok a
        → Bound res.0 t a.device_id × ((d : ℕ) → Bound db t d → a.device_id ≡ d) × Usable db t)

fails :
    (now : ℕ) (db later : GrantDb) (t : Text) (e : Error)
    → Later (Only (redeem_act now)) db later
    → Redeems now db t (later, err e)
fails now db later t e kept = (kept, λ a h. absurd (cc))

after_redeem-Redeems :
    (now : ℕ) (db : GrantDb) (l : Link) (g : Grant) (t : Text)
    (done : Result (Credentials × GrantDb))
    → find_link db t ≡ some l
    → find_grant db l.device_grant_id ≡ some g
    → Ensures (Served now db l.device_grant_id g) done
    → Redeems now db t (after_redeem db l g done)
unfolding after_redeem audited find_grant find_link
after_redeem-Redeems now db l g t (err e) at_l at_g served =
    fails now db (after_redeem db l g (err e)).0 t e (Later-refl db)
after_redeem-Redeems now db l g t (ok (a, later)) at_l at_g served =
    let res = served.at (a, later) refl in
    (
      res.0,
      λ b same.
          let m = res.0.1 t l at_l in
          let h = res.3 in
          (
            (
              m.0,
              h.0,
              m.1,
              subst (λ k. find? (λ x. x.id == k) later.grants ≡ some h.0) (sym m.3) h.1,
              h.2 ∙ ap some (device_eq b same),
            ),
            λ d was.
                sym (device_eq b same) ∙ same_device db l g t d a.device_id at_l at_g res.2 was,
            (l, g, at_l, at_g, res.1),
          ),
    )
  where
    device_eq : (b : Credentials) → ok a ≡ ok b → a.device_id ≡ b.device_id
    device_eq b h = let same : a ≡ b = cc in rw same refl

-- Each redemption does so.
pub redeem-Redeems :
    (hash : Text → Text) (db : GrantDb) (t : Text) (body : Option DeviceBody) (refresh_token : Text)
    (now new_id : ℕ)
    → Redeems now db (hash t) (redeem hash db (some t) body refresh_token now new_id)
unfolding redeem redeem_with
redeem-Redeems hash db t body refresh_token now new_id =
    checked (validate_redeem (some t) body) (validate_redeem-text t body)
  where
    located :
        (input : DeviceInput) (found : Result (Link × Grant))
        → Ensures
            (λ res.
              (find_link db (hash t) ≡ some res.0)
              × (find_grant db res.0.device_grant_id ≡ some res.1))
            found
        → Redeems now db (hash t) (redeem_with hash db input refresh_token now new_id found)
    located input (err e) h = fails now db db (hash t) e (Later-refl db)
    located input (ok (l, g)) h =
        let at = h.at (l, g) refl in
        after_redeem-Redeems now db l g (hash t) _ at.0 at.1
          (redeem_located-Served hash db l g input refresh_token now l.device_grant_id at.1 new_id)

    checked :
        (valid : Result (Text × DeviceInput))
        → Ensures (λ v. v.0 ≡ t) valid
        → Redeems now db (hash t) (elim valid [
          | err e ↦ (db, err e)
          | ok v ↦ redeem_with hash db v.1 refresh_token now new_id (locate db (hash v.0))
        ])
    checked (err e) h = fails now db db (hash t) e (Later-refl db)
    checked (ok (u, input)) h =
        rw (h.at (u, input) refl) (located input (locate db (hash t)) (locate-found db (hash t)))
