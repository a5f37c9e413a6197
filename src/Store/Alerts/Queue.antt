-- ===== src/Store/Alerts/Queue.antt =====
-- The ids of the queue, and which of its alerts wait.
use upag.Base.{
  ℕ, String, List, [], ◌∷◌, Bool, true, false, ◌&&◌, ◌≤◌, ◌<◌, ◌≡◌, refl, any, arith, ◌==◌, nat_eq,
  string_eq,
}
use upag.State.{status_eq}
use upag.Storage.{MonitorState, PendingAlert, pending, pending_eq}
use upag.Store.Probes.{cancel_pending}
use upag.Store.Alerts.{claim_row, claim_rows, is_claimable, deliver_rows}

-- Ids fall along the table and stay under the counter.
abbrev pub Descending : ℕ → List PendingAlert → Type 0
Descending n [] = Unit
Descending n (p ∷ ps) = (p.id < n) × Descending p.id ps

abbrev pub waits : ℕ → PendingAlert → Bool
waits k p = p.id == k && (p.status == pending)

abbrev pub is_waiting : ℕ → List PendingAlert → Bool
is_waiting k = any (waits k)

pub claim_row-id :
    (id : ℕ) (states : List MonitorState) (p : PendingAlert) → (claim_row id states p).id ≡ p.id
unfolding claim_row
claim_row-id id states p = ground arith

pub claim_row-waits :
    (id : ℕ) (states : List MonitorState) (k : ℕ) (p : PendingAlert)
    → waits k p ≡ false
    → waits k (claim_row id states p) ≡ false
unfolding claim_row
claim_row-waits id states k p h = ground arith

pub claimable-waits :
    (k : ℕ) (states : List MonitorState) (p : PendingAlert)
    → is_claimable k states p ≡ true
    → (waits k p ≡ true) × (waits k (claim_row k states p) ≡ false) × (p.id ≡ k)
unfolding claim_row is_claimable
claimable-waits k states p h = ground arith

pub cancel-Descending :
    (also : PendingAlert → Bool) (m : String) (n : ℕ) (ps : List PendingAlert)
    → Descending n ps
    → Descending n (cancel_pending also m ps)
unfolding cancel_pending
cancel-Descending also m n [] h = tt
cancel-Descending also m n (p ∷ ps) h = ground (arith, cancel-Descending also m p.id ps h.1)

pub claim-Descending :
    (id : ℕ) (states : List MonitorState) (n : ℕ) (ps : List PendingAlert)
    → Descending n ps
    → Descending n (claim_rows id states ps)
unfolding claim_rows
claim-Descending id states n [] h = tt
claim-Descending id states n (p ∷ ps) h =
    ground (arith, claim_row-id id states p, claim-Descending id states p.id ps h.1)

pub deliver-Descending :
    (id at n : ℕ) (ps : List PendingAlert) → Descending n ps → Descending n (deliver_rows id at ps)
unfolding deliver_rows
deliver-Descending id at n [] h = tt
deliver-Descending id at n (p ∷ ps) h = ground (arith, deliver-Descending id at p.id ps h.1)

pub cancel-not_waiting :
    (also : PendingAlert → Bool) (m : String) (k : ℕ) (ps : List PendingAlert)
    → is_waiting k ps ≡ false
    → is_waiting k (cancel_pending also m ps) ≡ false
unfolding cancel_pending
cancel-not_waiting also m k [] h = refl
cancel-not_waiting also m k (p ∷ ps) h = ground (arith, cancel-not_waiting also m k ps)

pub claim-not_waiting :
    (id : ℕ) (states : List MonitorState) (k : ℕ) (ps : List PendingAlert)
    → is_waiting k ps ≡ false
    → is_waiting k (claim_rows id states ps) ≡ false
unfolding claim_rows
claim-not_waiting id states k [] h = refl
claim-not_waiting id states k (p ∷ ps) h =
    ground (arith, claim_row-waits id states k p, claim-not_waiting id states k ps)

pub deliver-not_waiting :
    (id at k : ℕ) (ps : List PendingAlert)
    → is_waiting k ps ≡ false
    → is_waiting k (deliver_rows id at ps) ≡ false
unfolding deliver_rows
deliver-not_waiting id at k [] h = refl
deliver-not_waiting id at k (p ∷ ps) h = ground (arith, deliver-not_waiting id at k ps)

-- Below its bound an id stands once.
pub not_waiting_above :
    (k n : ℕ) (ps : List PendingAlert) → Descending n ps → n ≤ k → is_waiting k ps ≡ false
not_waiting_above k n [] h l = refl
not_waiting_above k n (p ∷ ps) h l = ground (arith, not_waiting_above k p.id ps h.1)

pub not_claimable :
    (k : ℕ) (states : List MonitorState) (ps : List PendingAlert)
    → is_waiting k ps ≡ false
    → any (is_claimable k states) ps ≡ false
not_claimable k states [] h = refl
not_claimable k states (p ∷ ps) h =
    ground (arith, claimable-waits k states p, not_claimable k states ps)

pub claimed-not_waiting :
    (k n : ℕ) (states : List MonitorState) (ps : List PendingAlert)
    → Descending n ps
    → any (is_claimable k states) ps ≡ true
    → (is_waiting k (claim_rows k states ps) ≡ false) × (k < n)
unfolding claim_rows
claimed-not_waiting k n states [] h c = cc
claimed-not_waiting k n states (p ∷ ps) h c = ground (
  arith,
  claimable-waits k states p,
  claim_row-waits k states k p,
  not_claimable k states ps,
  claimed-not_waiting k p.id states ps h.1,
  not_waiting_above k p.id ps h.1,
  claim-not_waiting k states k ps,
)
