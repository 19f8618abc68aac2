-- ===== src/Replication/Convergence.antt =====
-- Last writer wins: the balance after events that arrive in different orders.
use mobile_money_simulator.Prelude.{
  ℕ, suc, ◌+◌, ◌<◌, ◌≤◌, String, ◌≡◌, refl, sym, ap, ◌∙◌, inl, inr, Bool, true, false, List, [],
  ◌∷◌, ◌++◌, Option, none, some, ltb, nat_beq, arith, if◌then◌else◌, ◌==◌, Bool-cases, beq_refl,
  beq_eq, nat_eq, string_eq,
}
use mobile_money_simulator.Prelude.Int.{ℤ, pos, negsuc}
use mobile_money_simulator.Dict.{lookup, lookup-insert}
use mobile_money_simulator.Events.{Event}
use mobile_money_simulator.Gossip.{PeerInfo, update_vector_clock}
use mobile_money_simulator.Database.{Account, Database, EventRecord, with_balance}
use mobile_money_simulator.Replication.{Manager}
use mobile_money_simulator.Replication.Delivery.{row_of-parts, has_event-snoc}
use Prim.Native.Nat.{max}
use mobile_money_simulator.Replication.Receive.{
  detect_conflicts, Holder, has_event, has_event_request, is_duplicate_event, note_conflict, row_of,
  save_row, newer_of, last_event, is_newer, clamp, overwrite, apply_event, handle_replicated_event,
}

-- The event has its amounts, and its ids are not in the table.
pub record IsNew (e : Event) (events : List EventRecord) : Type 0 where
  pub row : EventRecord
  pub after : ℤ
  pub complete : row_of e.amount e.balance_before e.balance_after e ≡ some row
  pub says : e.balance_after ≡ some after
  pub fresh : has_event e.event_id events ≡ false
  pub unused : has_event_request e.request_id events ≡ false

-- The balance that is left to an account by an event that wins or loses.
abbrev pub balanced : Bool → Event → ℤ → Account → Account
balanced newer e after a = if newer then with_balance e.server_id (clamp after) a else a

-- A balance as the tables keep it: the least is zero.
abbrev pub at_least_zero : ℤ → ℤ
at_least_zero (pos n) = pos n
at_least_zero (negsuc n) = pos 0

pub clamp_exact : (x : ℤ) → clamp x ≡ at_least_zero x
clamp_exact (pos n) = let small : ltb (n + 0) 0 ≡ false = ground arith in rw small refl
clamp_exact (negsuc n) = let below : ltb 0 (0 + suc n) ≡ true = ground arith in rw below refl

module _ (ask : PeerInfo → ℕ → Option Holder) (str : ℕ → String) where
  -- A new event about a known account, with the code's own choice of the winner.
  pub handle_replicated_event_written :
      (now : ℕ) (e : Event) (a : Account) (db : Database) (m : Manager)
      → lookup e.account_id db.accounts ≡ some a
      → (n : IsNew e db.events)
      → let r = handle_replicated_event ask str now e db m in
        (r.1 ≡ true)
        × (r.0.0.events ≡ db.events ++ n.row ∷ [])
        × (lookup e.account_id r.0.0.accounts
            ≡ some (balanced (is_newer (last_event e.account_id db.events) e) e n.after a))
        × ((k : ℕ)
            → nat_beq e.account_id k ≡ false
            → lookup k r.0.0.accounts ≡ lookup k db.accounts)
        × (r.0.1.gossip_node ≡ update_vector_clock e.vector_clock m.gossip_node)
  unfolding handle_replicated_event is_duplicate_event apply_event note_conflict
  handle_replicated_event_written now e a db m held n =
      let (id, request, _, _, _) =
        row_of-parts e.amount e.balance_before e.balance_after e n.row n.complete in
      rw (n.fresh, held, n.complete, apply_event, save_row)
        (rw (id, request)
          (rw (n.fresh, n.unused)
            (
              refl,
              refl,
              written (is_newer (last_event e.account_id db.events) e) e.balance_after n.says held,
              kept (is_newer (last_event e.account_id db.events) e) e.balance_after,
              noted e db m,
            )))
    where
      written :
          (newer : Bool) (o : Option ℤ)
          → o ≡ some n.after
          → lookup e.account_id db.accounts ≡ some a
          → lookup e.account_id (overwrite newer o e a db.accounts)
            ≡ some (balanced newer e n.after a)
      written true o says h =
          rw says (
            lookup-insert e.account_id e.account_id _ db.accounts ∙ rw (beq_refl e.account_id) refl)
      written false o says h = h

      kept :
          (newer : Bool) (o : Option ℤ) (k : ℕ)
          → nat_beq e.account_id k ≡ false
          → lookup k (overwrite newer o e a db.accounts) ≡ lookup k db.accounts
      kept true (some x) k other = lookup-insert e.account_id k _ db.accounts ∙ rw other refl
      kept true none k other = refl
      kept false o k other = refl

      noted :
          (e : Event) (db : Database) (m : Manager)
          → update_vector_clock e.vector_clock (note_conflict e db m).gossip_node
            ≡ update_vector_clock e.vector_clock m.gossip_node
      noted e db m =
          unfold note_conflict in
          elim (Bool-cases (detect_conflicts e db)) [
            | inl t ↦ rw (t, note_conflict) refl
            | inr f ↦ rw (f, note_conflict) refl
          ]

-- The time of an event, zero for none.
abbrev pub time_of : Option EventRecord → ℕ
time_of none = 0
time_of (some r) = r.timestamp

pub last_event-snoc :
    (k : ℕ) (r : EventRecord) (rs : List EventRecord)
    → nat_beq r.account_id k ≡ true
    → time_of (last_event k (rs ++ r ∷ [])) ≡ max (time_of (last_event k rs)) r.timestamp
last_event-snoc k r [] mine = rw mine (omega arith)
last_event-snoc k r (x ∷ rs) mine = elim (Bool-cases (nat_beq x.account_id k)) [
  | inr theirs ↦ rw theirs (last_event-snoc k r rs mine)
  | inl also ↦ rw also (
      joined (last_event k (rs ++ r ∷ [])) (last_event k rs) x r.timestamp
        (last_event-snoc k r rs mine))
]
  where
    newer_time :
        (o : Option EventRecord) (x : EventRecord)
        → (newer_of o x).timestamp ≡ max (time_of o) x.timestamp
    newer_time none x = omega arith
    newer_time (some y) x = elim (Bool-cases (ltb x.timestamp y.timestamp)) [
      | inl t ↦ rw t (ground arith)
      | inr f ↦ rw f (ground arith)
    ]

    joined :
        (o p : Option EventRecord) (x : EventRecord) (t : ℕ)
        → time_of o ≡ max (time_of p) t
        → (newer_of o x).timestamp ≡ max (newer_of p x).timestamp t
    joined o p x t h = omega (arith, newer_time o x, newer_time p x)

pub newer_if : (o : Option EventRecord) (e : Event) → time_of o < e.timestamp → is_newer o e ≡ true
newer_if none e h = refl
newer_if (some r) e h = ground arith

pub older_if : (o : Option EventRecord) (e : Event) → e.timestamp < time_of o → is_newer o e ≡ false
older_if none e h = absurd (omega arith)
older_if (some r) e h = ground arith

not_before : (o : Option EventRecord) (e : Event) → is_newer o e ≡ true → time_of o ≤ e.timestamp
not_before none e h = omega arith
not_before (some r) e h = ground arith

-- An event stays new while another one is saved.
IsNew-snoc :
    (e f : Event) (events : List EventRecord) (n : IsNew e events) (r : EventRecord)
    → (r.event_id ≡ f.event_id) × (r.request_id ≡ f.request_id)
    → (f.event_id == e.event_id) ≡ false
    → (f.request_id == e.request_id) ≡ false
    → IsNew e (events ++ r ∷ [])
IsNew-snoc e f events n r same ids requests =
    let (seen, _) = has_event-snoc e.event_id r events in
    let (_, taken) = has_event-snoc e.request_id r events in
    record {
      row = n.row;
      after = n.after;
      complete = n.complete;
      says = n.says;
      fresh = rw (seen, n.fresh, same.0) ids;
      unused = rw (taken, n.unused, same.1) requests;
    }

abbrev pub balance_of : Option Account → Option ℤ
balance_of none = none
balance_of (some a) = some a.balance

-- Two events of one account, with ids and request ids of their own.
pub record AreApart (e f : Event) : Type 0 where
  pub account : f.account_id ≡ e.account_id
  pub ids : (e.event_id == f.event_id) ≡ false
  pub requests : (e.request_id == f.request_id) ≡ false

AreApart-swap : (e f : Event) → AreApart e f → AreApart f e
AreApart-swap e f h = record {
  account = sym h.account;
  ids = ground (arith, h.ids, beq_eq f.event_id e.event_id, beq_refl e.event_id);
  requests = ground (arith, h.requests, beq_eq f.request_id e.request_id, beq_refl e.request_id);
}

row_of_account :
    (e : Event) (events : List EventRecord) (n : IsNew e events) (k : ℕ)
    → e.account_id ≡ k
    → nat_beq n.row.account_id k ≡ true
row_of_account e events n k h =
    let (_, _, mine, _, _) =
      row_of-parts e.amount e.balance_before e.balance_after e n.row n.complete in
    same n.row.account_id k (mine ∙ h)
  where
    same : (a b : ℕ) → a ≡ b → nat_beq a b ≡ true
    same a b h = ground arith

row_time :
    (e : Event) (events : List EventRecord) (n : IsNew e events) → n.row.timestamp ≡ e.timestamp
row_time e events n =
    let (_, _, _, time, _) =
      row_of-parts e.amount e.balance_before e.balance_after e n.row n.complete in
    time

module _ (ask : PeerInfo → ℕ → Option Holder) (str : ℕ → String) where
  -- Two events that arrive one after the other.
  in_turn :
      (now now' : ℕ) (newer : Bool) (e f : Event) (a : Account) (db : Database) (m m' : Manager)
      → lookup e.account_id db.accounts ≡ some a
      → AreApart e f
      → (n : IsNew e db.events) → (o : IsNew f db.events)
      → is_newer (last_event e.account_id (db.events ++ n.row ∷ [])) f ≡ newer
      → let r = handle_replicated_event ask str now e db m in
        let r' = handle_replicated_event ask str now' f r.0.0 m' in
        (r.1 ≡ true)
        × (r'.1 ≡ true)
        × (lookup e.account_id r'.0.0.accounts
            ≡ some (
                balanced newer f o.after
                  (balanced (is_newer (last_event e.account_id db.events) e) e n.after a)))
  in_turn now now' newer e f a db m m' held apart n o wins =
      let db1 = (handle_replicated_event ask str now e db m).0.0 in
      let (ok, events, written, _, _) =
        handle_replicated_event_written ask str now e a db m held n in
      let (id, request, _, _, _) =
        row_of-parts e.amount e.balance_before e.balance_after e n.row n.complete in
      let added = IsNew-snoc f e db.events o n.row (id, request) apart.ids apart.requests in
      let still : IsNew f db1.events = record {
        row = o.row;
        after = o.after;
        complete = o.complete;
        says = o.says;
        fresh = ap (has_event f.event_id) events ∙ added.fresh;
        unused = ap (has_event_request f.request_id) events ∙ added.unused;
      } in
      let a1 = balanced (is_newer (last_event e.account_id db.events) e) e n.after a in
      let (ok', _, written', _, _) =
        handle_replicated_event_written ask str now' f a1 db1 m'
          (ap (λ k. lookup k db1.accounts) apart.account ∙ written) still in
      let judged : is_newer (last_event f.account_id db1.events) f ≡ newer =
        ap (λ l. is_newer (last_event f.account_id l) f) events
        ∙ ap (λ k. is_newer (last_event k (db.events ++ n.row ∷ [])) f) apart.account
        ∙ wins in
      (
        ok,
        ok',
        ap (λ k. lookup k (handle_replicated_event ask str now' f db1 m').0.0.accounts)
              (sym apart.account)
            ∙ written'
            ∙ ap (λ b. some (balanced b f o.after a1)) judged,
      )

  -- Two new events of one account, with different ids and request ids, of which the first wins over
  -- what the account has seen and the second has the later time. In whichever order they arrive,
  -- both are accepted, and the account ends with the balance of the later one, at least zero.
  pub handle_replicated_event_converges :
      (now now' : ℕ) (e f : Event) (a : Account) (db : Database) (m m1 m2 : Manager)
      → lookup e.account_id db.accounts ≡ some a
      → AreApart e f
      → IsNew e db.events
      → (n : IsNew f db.events) → is_newer (last_event e.account_id db.events) e ≡ true
      → e.timestamp < f.timestamp
      → let first = handle_replicated_event ask str now e db m in
        let first' = handle_replicated_event ask str now' f first.0.0 m1 in
        let second = handle_replicated_event ask str now f db m in
        let second' = handle_replicated_event ask str now' e second.0.0 m2 in
        ((first.1 ≡ true) × (first'.1 ≡ true) × (second.1 ≡ true) × (second'.1 ≡ true))
        × (balance_of (lookup e.account_id first'.0.0.accounts) ≡ some (at_least_zero n.after))
        × (balance_of (lookup e.account_id second'.0.0.accounts) ≡ some (at_least_zero n.after))
  handle_replicated_event_converges now now' e f a db m m1 m2 held apart ne nf wins earlier =
      let bound = not_before (last_event e.account_id db.events) e wins in
      let seen =
        last_event-snoc e.account_id ne.row db.events
          (row_of_account e db.events ne e.account_id refl) in
      let seen' =
        last_event-snoc f.account_id nf.row db.events
          (row_of_account f db.events nf f.account_id refl) in
      let (ok1, ok2, result) = in_turn now now' true e f a db m m1 held apart ne nf (
        newer_if (last_event e.account_id (db.events ++ ne.row ∷ [])) f
          (omega (arith, seen, row_time e db.events ne))) in
      let (ok3, ok4, result') =
        in_turn now now' false f e a db m m2 (ap (λ k. lookup k db.accounts) apart.account ∙ held)
          (AreApart-swap e f apart) nf ne
          (older_if (last_event f.account_id (db.events ++ nf.row ∷ [])) e
            (omega (arith, seen', row_time f db.events nf))) in
      let fresh : is_newer (last_event f.account_id db.events) f ≡ true =
        ap (λ k. is_newer (last_event k db.events) f) apart.account
        ∙ newer_if (last_event e.account_id db.events) f (omega (arith, bound)) in
      (
        (ok1, ok2, ok3, ok4),
        ap balance_of result ∙ ap some (clamp_exact nf.after),
        ap
              (λ k. balance_of (
                lookup k
                  (handle_replicated_event ask str now' e
                    (handle_replicated_event ask str now f db m).0.0 m2).0.0.accounts))
              (sym apart.account)
            ∙ ap balance_of result'
            ∙ ap (λ b. balance_of (some (balanced b f nf.after a))) fresh
            ∙ ap some (clamp_exact nf.after),
      )
