-- ===== src/Store/Listings/Failures.antt =====
-- The deliveries that failed last, of `ListActionableAlertDeliveryFailures`.
use upag.Base.{
  ℕ, zero, suc, ◌<◌, ◌≤◌, ℤ, positive_or, String, List, [], ◌∷◌, Bool, true, ◌&&◌, any, count, keep,
  take, order_by, count-order_by, ◌==◌, nat_eq, string_eq, eq_iff, Bool-cases, inl, inr, ◌≡◌, refl,
  sym, ◌∙◌, arith,
}
use upag.Storage.{AlertNotification}
use upag.Store.Defs.{Store}
use upag.Store.Alerts.{is_newer}
use upag.Store.Listings.{attempted_last, is_last_failure, list_actionable_alert_delivery_failures}

abbrev pub is_about : ℕ → String → AlertNotification → Bool
is_about incident provider n = n.incident_id == incident && (n.provider == provider)

-- Ids fall along the table, and stay below the next one.
abbrev pub FallsBelow : ℕ → List AlertNotification → Type 0
FallsBelow k [] = Unit
FallsBelow k (n ∷ ns) = (n.id < k) × FallsBelow n.id ns

count-take {ℓ} :
    {A : Type ℓ} (p : A → Bool) (n : ℕ) (xs : List A) → count p (take n xs) ≤ count p xs
count-take p zero xs = omega arith
count-take p (suc n) [] = omega arith
count-take p (suc n) (x ∷ xs) = ground (arith, count-take p n xs)

same_text : (x y z : String) → (x == z) ≡ true → (y == z) ≡ true → (x == y) ≡ true
same_text x y z hx hy = (eq_iff x y).1 ((eq_iff x z).0 hx ∙ sym ((eq_iff y z).0 hy))

newer_of :
    (incident : ℕ) (provider : String) (n m : AlertNotification)
    → is_about incident provider n ≡ true
    → is_about incident provider m ≡ true
    → m.id < n.id
    → is_newer m n ≡ true
newer_of incident provider n m hn hm lt = ground (arith, same_text n.provider m.provider provider)

module _ (incident : ℕ) (provider : String) (rows : List AlertNotification) where
  abbrev listed : List AlertNotification → ℕ
  listed ns = count (is_about incident provider) (keep (is_last_failure rows) ns)

  -- What follows a later row of the same incident and provider is not listed.
  none_after :
      (n : AlertNotification) (k : ℕ) (ns : List AlertNotification)
      → is_about incident provider n ≡ true
      → k ≤ n.id
      → FallsBelow k ns
      → ((m : AlertNotification) → is_newer m n ≡ true → any (is_newer m) rows ≡ true)
      → listed ns ≡ 0
  none_after n k [] a le f h = refl
  none_after n k (m ∷ ns) a le f h = elim (Bool-cases (is_about incident provider m)) [
    | inl e ↦
        let found : any (is_newer m) rows ≡ true =
          h m (newer_of incident provider n m a e (omega arith)) in
        ground (arith, found, none_after n m.id ns a (omega arith) f.1 h)
    | inr e ↦ ground (arith, none_after n m.id ns a (omega arith) f.1 h)
  ]

  last-le-one :
      (k : ℕ) (ns : List AlertNotification)
      → FallsBelow k ns
      → ((m : AlertNotification) → any (is_newer m) ns ≡ true → any (is_newer m) rows ≡ true)
      → listed ns ≤ 1
  last-le-one k [] f h = omega arith
  last-le-one k (n ∷ ns) f h =
      let later : (m : AlertNotification)
          → any (is_newer m) ns ≡ true
          → any (is_newer m) rows ≡ true =
        λ m e. h m (ground arith) in
      elim (Bool-cases (is_about incident provider n)) [
        | inl e ↦
            ground (arith, none_after n n.id ns e (omega arith) f.1 (λ m newer. h m (ground arith)))
        | inr e ↦ ground (arith, last-le-one n.id ns f.1 later)
      ]

-- Among the deliveries that are listed as failed there is one at most for each incident and provider,
-- while the ids of the notifications fall along the table and stay below the next one.
pub list_actionable-le-one :
    (limit : ℤ) (s : Store) (incident : ℕ) (provider : String)
    → FallsBelow s.next_notification_id s.notifications
    → count (is_about incident provider) (list_actionable_alert_delivery_failures limit s) ≤ 1
unfolding list_actionable_alert_delivery_failures
list_actionable-le-one limit s incident provider f =
    let kept = keep (is_last_failure s.notifications) s.notifications in
    omega (
      arith,
      count-take (is_about incident provider) (positive_or limit 50) (order_by attempted_last kept),
      count-order_by (is_about incident provider) attempted_last kept,
      last-le-one incident provider s.notifications s.next_notification_id s.notifications f
          (λ m e. e),
    )
