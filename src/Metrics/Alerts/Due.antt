-- ===== src/Metrics/Alerts/Due.antt =====
-- The alerts that a snapshot raises are those that its fields call for, in the order of the rules.
use ultra_low_latency_orderb.Prelude.{
  ℕ, ◌+◌, ◌<◌, ◌≤◌, ◌≡◌, ◌∙◌, refl, sym, ap, arith, Bool, true, false, Bool-cases, inl, inr, ◌⊎◌,
  List, [], ◌∷◌, ◌++◌, length, length-append, take, if◌then◌else◌, lt→ltb, get_or,
}
use ultra_low_latency_orderb.Prelude.Int.{pos, ◌+ℤ◌, ◌-ℤ◌, ◌≤ℤ◌}
use mathlib.Core.List.{append_assoc, append-nil}
use ultra_low_latency_orderb.Metrics.{Bytes, codes, Double, Printer, OpStat, Alert, MetricsSnapshot}
use ultra_low_latency_orderb.Metrics.Alerts.{
  AlertConfig, max_alerts, raise, is_crossed, check_crossed, is_wide, check_spread, has_dropped,
  check_drops, is_timed, check_ops, check_p99, evaluate_alerts,
}

-- The kind of an alert.
abbrev pub Kind : Type 0
Kind = Bytes × Bytes

abbrev pub kinds : List Alert → List Kind
kinds [] = []
kinds (a ∷ r) = (a.level, a.code_name) ∷ kinds r

abbrev when : Bool → Kind → List Kind
when true k = k ∷ []
when false k = []

-- Of a rule that calls for an alert of the kind `k` just where `P` holds: what it has raised.
abbrev pub Called : Type 0 → Kind → List Kind → Type 0
Called P k ks = (P × (ks ≡ k ∷ [])) ⊎ (¬ P × (ks ≡ []))

when-Called :
    (test : Bool) (P : Type 0) (k : Kind)
    → (test ≡ true → P)
    → (P → test ≡ true)
    → Called P k (when test k)
when-Called true P k f g = inl (f refl, refl)
when-Called false P k f g = inr ((λ x. clash (g x)), refl)
  where
    clash : false ≡ true → ⊥
    clash e = ground arith

kinds-append : (xs ys : List Alert) → kinds (xs ++ ys) ≡ kinds xs ++ kinds ys
kinds-append [] ys = refl
kinds-append (a ∷ xs) ys = ap (λ ks. (a.level, a.code_name) ∷ ks) (kinds-append xs ys)

length-kinds : (xs : List Alert) → length (kinds xs) ≡ length xs
length-kinds [] = refl
length-kinds (a ∷ xs) = omega (arith, length-kinds xs)

kinds-raise :
    (alerts : List Alert) (level code_name text : Bytes)
    → length alerts < max_alerts
    → kinds (raise alerts level code_name text) ≡ kinds alerts ++ ((level, code_name) ∷ [])
unfolding raise
kinds-raise alerts level code_name text few = rw (lt→ltb (length alerts) max_alerts few) (
    kinds-append alerts (record { level = level; code_name = code_name; text = take 79 text } ∷ []))

-- A rule that raises an alert of the kind `k` where its test holds.
kinds-raise-when :
    (test : Bool) (alerts : List Alert) (level code_name text : Bytes)
    → length alerts < max_alerts
    → kinds (if test then raise alerts level code_name text else alerts)
      ≡ kinds alerts ++ when test (level, code_name)
kinds-raise-when true alerts level code_name text few = kinds-raise alerts level code_name text few
kinds-raise-when false alerts level code_name text few = sym (append-nil (kinds alerts))

-- So long as there is room, such a rule adds its alert and no other.
record Adds (before after : List Alert) (due : List Kind) (n : ℕ) : Type 0 where
  added : kinds after ≡ kinds before ++ due
  few : length after ≤ n

raise-when-Adds :
    (test : Bool) (alerts : List Alert) (level code_name text : Bytes) (n : ℕ)
    → length alerts ≤ n
    → n < max_alerts
    → Adds alerts
        (if test then raise alerts level code_name text else alerts)
        (when test (level, code_name))
        (n + 1)
raise-when-Adds true alerts level code_name text n le lt =
    let one = kinds-raise alerts level code_name text (omega arith) in
    record {
      added = one;
      few = omega (
        arith,
        ap length one,
        length-kinds alerts,
        length-kinds (raise alerts level code_name text),
        length-append (kinds alerts) ((level, code_name) ∷ []),
      );
    }
raise-when-Adds false alerts level code_name text n le lt = record {
  added = sym (append-nil (kinds alerts));
  few = omega arith;
}

four_parts :
    {a b c e : List Kind} (x y z w : List Kind)
    → a ≡ x
    → b ≡ a ++ y
    → c ≡ b ++ z
    → e ≡ c ++ w
    → e ≡ x ++ (y ++ (z ++ w))
four_parts {a} {b} {c} {e} x y z w p q r s =
    s
    ∙ ap (λ ks. ks ++ w) (r ∙ ap (λ ks. ks ++ z) (q ∙ ap (λ ks. ks ++ y) p))
    ∙ append_assoc (x ++ y) z w
    ∙ append_assoc x y (z ++ w)

module _ {W : Type 0} ⦃d : Double W⦄ ⦃p : Printer W⦄ where
  -- What the operations call for.
  abbrev slow_ops : AlertConfig W → List (OpStat W) → List Kind
  slow_ops cfg [] = []
  slow_ops cfg (o ∷ ops) =
      when (d.gt o.p99 cfg.p99_ns) (codes "warn", codes "p99") ++ slow_ops cfg ops

  kinds-check_ops :
      (cfg : AlertConfig W) (ops : List (OpStat W)) (alerts : List Alert)
      → length alerts + length ops ≤ max_alerts
      → kinds (check_ops cfg ops alerts) ≡ kinds alerts ++ slow_ops cfg ops
  unfolding check_ops
  kinds-check_ops cfg [] alerts few = sym (append-nil (kinds alerts))
  kinds-check_ops cfg (o ∷ ops) alerts few =
      let one =
        raise-when-Adds (d.gt o.p99 cfg.p99_ns) alerts (codes "warn") (codes "p99") _
          (length alerts) (omega arith) (omega arith) in
      kinds-check_ops cfg ops _ (omega (arith, one.few))
      ∙ ap (λ ks. ks ++ slow_ops cfg ops) one.added
      ∙ append_assoc (kinds alerts) _ (slow_ops cfg ops)

  kinds-check_p99 :
      (cfg : AlertConfig W) (s : MetricsSnapshot W) (alerts : List Alert)
      → length alerts ≤ 3
      → length s.ops ≤ 5
      → kinds (check_p99 cfg s alerts)
        ≡ kinds alerts ++ (if is_timed cfg s then slow_ops cfg s.ops else [])
  unfolding check_p99
  kinds-check_p99 cfg s alerts few ops = elim (Bool-cases (is_timed cfg s)) [
    | inl e ↦ rw e (kinds-check_ops cfg s.ops alerts (omega arith))
    | inr e ↦ rw e (sym (append-nil (kinds alerts)))
  ]

  check_crossed-Adds :
      (cfg : AlertConfig W) (s : MetricsSnapshot W)
      → Adds [] (check_crossed cfg s []) (when (is_crossed cfg s) (codes "crit", codes "crossed")) 1
  unfolding check_crossed
  check_crossed-Adds cfg s =
      raise-when-Adds (is_crossed cfg s) [] _ _ _ 0 (omega arith) (omega arith)

  check_spread-Adds :
      (cfg : AlertConfig W) (s : MetricsSnapshot W) (alerts : List Alert)
      → length alerts ≤ 1
      → Adds alerts
          (check_spread cfg s alerts)
          (when (is_wide cfg s) (codes "warn", codes "spread"))
          2
  unfolding check_spread
  check_spread-Adds cfg s alerts le =
      raise-when-Adds (is_wide cfg s) alerts _ _ _ 1 le (omega arith)

  check_drops-Adds :
      (cfg : AlertConfig W) (s : MetricsSnapshot W) (last_drops : ℕ) (alerts : List Alert)
      → length alerts ≤ 2
      → Adds alerts
          (check_drops cfg s last_drops alerts)
          (when (has_dropped cfg s last_drops) (codes "warn", codes "drops"))
          3
  unfolding check_drops
  check_drops-Adds cfg s last_drops alerts le =
      raise-when-Adds (has_dropped cfg s last_drops) alerts _ _ _ 2 le (omega arith)

  -- When each rule calls for its alert, in terms of the fields alone.
  abbrev pub IsTwoSided : MetricsSnapshot W → Type 0
  IsTwoSided s = (s.have_book ≡ true) × (pos 1 ≤ℤ s.best_bid) × (pos 1 ≤ℤ s.best_ask)

  -- The bid is at the ask or above it.
  abbrev pub IsCrossed : AlertConfig W → MetricsSnapshot W → Type 0
  IsCrossed cfg s = (cfg.on_crossed ≡ true) × IsTwoSided s × (s.best_ask ≤ℤ s.best_bid)

  -- The ask is above the bid by more than the limit, where there is one.
  abbrev pub IsWide : AlertConfig W → MetricsSnapshot W → Type 0
  IsWide cfg s =
      (pos 1 ≤ℤ cfg.spread_max)
      × IsTwoSided s
      × (cfg.spread_max +ℤ s.best_bid +ℤ pos 1 ≤ℤ s.best_ask)

  -- More was dropped than when last looked at.
  abbrev pub IsDropping : AlertConfig W → MetricsSnapshot W → ℕ → Type 0
  IsDropping cfg s last_drops = (cfg.on_drops ≡ true) × (last_drops < s.drops)

  -- There is a limit on the p99, and the latencies are nanoseconds.
  abbrev pub IsTimed : AlertConfig W → MetricsSnapshot W → Type 0
  IsTimed cfg s = (d.gt cfg.p99_ns d.nought ≡ true) × (get_or s.latency_unit 0 0 ≡ b'n')

  -- One alert for each operation whose p99 is above the limit.
  abbrev pub AreSlow : AlertConfig W → List (OpStat W) → List Kind → Type 0
  AreSlow cfg [] ks = ks ≡ []
  AreSlow cfg (o ∷ ops) ks =
      (one : List Kind) × (rest : List Kind) × (ks ≡ one ++ rest)
      × Called (d.gt o.p99 cfg.p99_ns ≡ true) (codes "warn", codes "p99") one
      × AreSlow cfg ops rest

  -- What a snapshot calls for, rule by rule.
  pub record IsDue (cfg : AlertConfig W) (s : MetricsSnapshot W) (last_drops : ℕ) (ks : List Kind)
      : Type 0 where
    pub crossed : List Kind
    pub spread : List Kind
    pub drops : List Kind
    pub slow : List Kind
    pub all : ks ≡ crossed ++ (spread ++ (drops ++ slow))
    pub by_crossed : Called (IsCrossed cfg s) (codes "crit", codes "crossed") crossed
    pub by_spread : Called (IsWide cfg s) (codes "warn", codes "spread") spread
    pub by_drops : Called (IsDropping cfg s last_drops) (codes "warn", codes "drops") drops
    pub by_p99 : (IsTimed cfg s × AreSlow cfg s.ops slow) ⊎ (¬ IsTimed cfg s × (slow ≡ []))

  is_crossed-Called :
      (cfg : AlertConfig W) (s : MetricsSnapshot W)
      → Called
          (IsCrossed cfg s)
          (codes "crit", codes "crossed")
          (when (is_crossed cfg s) (codes "crit", codes "crossed"))
  is_crossed-Called cfg s =
      when-Called (is_crossed cfg s) (IsCrossed cfg s) _ (λ e. ground arith) (λ x. ground arith)

  is_wide-Called :
      (cfg : AlertConfig W) (s : MetricsSnapshot W)
      → Called
          (IsWide cfg s)
          (codes "warn", codes "spread")
          (when (is_wide cfg s) (codes "warn", codes "spread"))
  unfolding ◌+ℤ◌ ◌-ℤ◌
  is_wide-Called cfg s =
      when-Called (is_wide cfg s) (IsWide cfg s) _ (λ e. ground arith) (λ x. ground arith)

  has_dropped-Called :
      (cfg : AlertConfig W) (s : MetricsSnapshot W) (last_drops : ℕ)
      → Called
          (IsDropping cfg s last_drops)
          (codes "warn", codes "drops")
          (when (has_dropped cfg s last_drops) (codes "warn", codes "drops"))
  has_dropped-Called cfg s last_drops =
      when-Called (has_dropped cfg s last_drops) (IsDropping cfg s last_drops) _ (λ e. ground arith)
        (λ x. ground arith)

  slow_ops-AreSlow :
      (cfg : AlertConfig W) (ops : List (OpStat W)) → AreSlow cfg ops (slow_ops cfg ops)
  slow_ops-AreSlow cfg [] = refl
  slow_ops-AreSlow cfg (o ∷ ops) = (
    when (d.gt o.p99 cfg.p99_ns) (codes "warn", codes "p99"),
    slow_ops cfg ops,
    refl,
    when-Called (d.gt o.p99 cfg.p99_ns) _ _ (λ e. e) (λ e. e),
    slow_ops-AreSlow cfg ops,
  )

  is_timed-AreSlow :
      (cfg : AlertConfig W) (s : MetricsSnapshot W)
      → let slow = if is_timed cfg s then slow_ops cfg s.ops else [] in
        (IsTimed cfg s × AreSlow cfg s.ops slow) ⊎ (¬ IsTimed cfg s × (slow ≡ []))
  is_timed-AreSlow cfg s = elim (Bool-cases (is_timed cfg s)) [
    | inl e ↦
        let timed : IsTimed cfg s = ground arith in rw e (inl (timed, slow_ops-AreSlow cfg s.ops))
    | inr e ↦ let untimed : ¬ IsTimed cfg s = λ x. ground arith in rw e (inr (untimed, refl))
  ]

  -- A snapshot of at most five operations raises the alerts of `IsDue`, no other and none left
  -- out, in the order of the rules; nothing else of it changes, and the drops that the next one is
  -- compared with are its own.
  pub kinds-evaluate_alerts :
      (s : MetricsSnapshot W) (cfg : AlertConfig W) (last_drops : ℕ)
      → length s.ops ≤ 5
      → let (s', drops) = evaluate_alerts s cfg last_drops in
        IsDue cfg s last_drops (kinds s'.alerts)
        × (s' ≡ record s { alerts = s'.alerts })
        × (drops ≡ s.drops)
  unfolding evaluate_alerts
  kinds-evaluate_alerts s cfg last_drops few =
      let a = check_crossed-Adds cfg s in
      let b = check_spread-Adds cfg s _ a.few in
      let c = check_drops-Adds cfg s last_drops _ b.few in
      (
        record {
          crossed = when (is_crossed cfg s) (codes "crit", codes "crossed");
          spread = when (is_wide cfg s) (codes "warn", codes "spread");
          drops = when (has_dropped cfg s last_drops) (codes "warn", codes "drops");
          slow = if is_timed cfg s then slow_ops cfg s.ops else [];
          all = four_parts _ _ _ _ a.added b.added c.added (kinds-check_p99 cfg s _ c.few few);
          by_crossed = is_crossed-Called cfg s;
          by_spread = is_wide-Called cfg s;
          by_drops = has_dropped-Called cfg s last_drops;
          by_p99 = is_timed-AreSlow cfg s;
        },
        refl,
        refl,
      )
