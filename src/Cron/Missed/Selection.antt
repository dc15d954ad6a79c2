-- ===== src/Cron/Missed/Selection.antt =====
-- crates/camp-core/src/orders/cron.rs: which fire `most_recent_missed` selects.
use mathlib.Core.Path.{subst}
use gascamp.Common.{
  ◌≡◌, refl, ℕ, zero, suc, ◌-◌, ◌<◌, ◌≤◌, Bool, true, false, Option, none, some, Option-cases,
  Bool-cases, inl, inr, arith, ltb, leb, leb→le, ◌⊎◌,
}
use gascamp.Cron.{CronExpr, Zone, next_after}
use gascamp.Cron.Search.{next_after-later}
use gascamp.Cron.Missed.{
  scan, scan_start, is_recent, window_allows, most_recent_missed, signed, signed_max,
}

module _ (tz : Zone) (expr : CronExpr) where
  -- a fire, the fire after it, and so on
  pub data Chain : ℕ → ℕ → Type 0 where
    first : {from t : ℕ} → next_after tz expr from ≡ some t → Chain from t
    then' : {from t : ℕ} (u : ℕ) → next_after tz expr from ≡ some u → Chain u t → Chain from t

  Chain-later : {from t : ℕ} → Chain from t → from < t
  Chain-later {from} {t} (first h) = next_after-later tz expr from t h
  Chain-later {from} {t} (then' u h c) =
      omega (arith, next_after-later tz expr from u h, Chain-later c)

  -- no fire before the one that is next
  Chain-next : {from t : ℕ} (u : ℕ) → next_after tz expr from ≡ some u → Chain from t → u ≤ t
  Chain-next u h (first h') = ground (arith, h, h')
  Chain-next u h (then' v h' c) = ground (arith, h, h', Chain-later c)

  Chain-tail :
      {from t : ℕ} (u : ℕ) → next_after tz expr from ≡ some u → Chain from t → (t ≡ u) ⊎ Chain u t
  Chain-tail u h (first h') = inl (ground (arith, h, h'))
  Chain-tail {t = t} u h (then' v h' c) = inr (subst (λ x. Chain x t) (ground (arith, h, h')) c)

  module _ (window now : ℕ) where
    recent : ℕ → Bool
    recent t = is_recent tz expr window now t

    -- Where one fire is recent, a later one is.
    recent-later : (t u : ℕ) → t ≤ u → u ≤ now → recent t ≡ true → recent u ≡ true
    unfolding recent window_allows
    recent-later t u le low h = ground (arith, le, low, h)

    -- The last fire up to `now`, and it is recent.
    pub record IsMostRecent (start t : ℕ) : Type 0 where
      pub reached : Chain start t
      pub past : t ≤ now
      pub recent : is_recent tz expr window now t ≡ true
      pub last : (u : ℕ) → Chain t u → now < u

    -- No fire from the start up to `now` is recent.
    abbrev pub NoneRecent : ℕ → Type 0
    NoneRecent start = (t : ℕ) → Chain start t → t ≤ now → is_recent tz expr window now t ≡ false

    abbrev Selects : ℕ → Option ℕ → Type 0
    Selects start none = NoneRecent start
    Selects start (some t) = IsMostRecent start t

    -- where the scan of later fires ends
    abbrev Ends : ℕ → Option ℕ → Option ℕ → Type 0
    Ends cursor none r = Selects cursor r
    Ends cursor (some b) none = ⊥
    Ends cursor (some b) (some t) =
        ((t ≡ b) × ((u : ℕ) → Chain b u → now < u)) ⊎ IsMostRecent cursor t

    stops :
        (cursor : ℕ)
        → ((t : ℕ) → Chain cursor t → now < t)
        → (best : Option ℕ) → ((b : ℕ) → best ≡ some b → b ≡ cursor)
        → Ends cursor best best
    stops cursor over none h = λ t c le. absurd (omega (arith, over t c, le))
    stops cursor over (some b) h = inl (refl, λ u c. over u (subst (λ x. Chain x u) (h b refl) c))

    -- past one fire that is the new best
    taken :
        (cursor fire : ℕ)
        → next_after tz expr cursor ≡ some fire
        → fire ≤ now
        → recent fire ≡ true
        → (best r : Option ℕ) → Ends fire (some fire) r
        → Ends cursor best r
    unfolding recent
    taken cursor fire h le rec best none e = absurd e
    taken cursor fire h le rec best (some t) e = put best (most_recent e)
      where
        put : (o : Option ℕ) → IsMostRecent cursor t → Ends cursor o (some t)
        put none m = m
        put (some b) m = inr m

        most_recent :
            ((t ≡ fire) × ((u : ℕ) → Chain fire u → now < u)) ⊎ IsMostRecent fire t
            → IsMostRecent cursor t
        most_recent (inl (same, over)) = record {
          reached = first (ground (arith, h, same));
          past = omega (arith, le, same);
          recent = rw same rec;
          last = λ u c. over u (subst (λ x. Chain x u) same c);
        }
        most_recent (inr m) = record {
          reached = then' fire h m.reached;
          past = m.past;
          recent = m.recent;
          last = m.last;
        }

    -- past one fire that is too old
    passed :
        (cursor fire : ℕ)
        → next_after tz expr cursor ≡ some fire
        → recent fire ≡ false
        → (r : Option ℕ) → Selects fire r
        → Selects cursor r
    unfolding recent
    passed cursor fire h old none e =
        λ t c le. elim (Chain-tail fire h c) [ inl same ↦ rw same old | inr c' ↦ e t c' le ]
    passed cursor fire h old (some t) m = record {
      reached = then' fire h m.reached;
      past = m.past;
      recent = m.recent;
      last = m.last;
    }

    scan-Ends :
        (fuel cursor : ℕ) (best : Option ℕ)
        → now - cursor < fuel
        → ((b : ℕ) → best ≡ some b → (b ≡ cursor) × (recent cursor ≡ true))
        → (r : Option ℕ) × (scan tz expr window now fuel cursor best ≡ some r) × Ends cursor best r
    unfolding scan recent
    scan-Ends zero cursor best enough good = absurd (omega (arith, enough))
    scan-Ends (suc fuel) cursor best enough good = elim (Option-cases (next_after tz expr cursor)) [
      | inl over ↦ (
        best,
        ground (arith, over),
        stops cursor (λ t c. absurd (never over c)) best (λ b e. (good b e).0),
      )
      | inr (fire, h) ↦ elim (Bool-cases (leb fire now)) [
        | inr over ↦ (
          best,
          ground (arith, h, over),
          stops cursor (λ t c. ground (arith, over, Chain-next fire h c)) best
              (λ b e. (good b e).0),
        )
        | inl le ↦ elim (Bool-cases (recent fire)) [
          | inl rec ↦
              (let (r, e, x) =
                  scan-Ends fuel fire (some fire) (less fire h le)
                    (λ b q. (ground (arith, q), rec)) in
                (
                  r,
                  ground (arith, h, le, rec, e),
                  taken cursor fire h (leb→le fire now le) rec best r x,
                ))
          | inr old ↦ elim (Option-cases best) [
            | inr (b, q) ↦ absurd (
                let again =
                  recent-later cursor fire (ground (arith, next_after-later tz expr cursor fire h))
                    (leb→le fire now le) (good b q).1 in
                ground (arith, again, old))
            | inl q ↦
                (let (r, e, x) = scan-Ends fuel fire none (less fire h le) (λ b q'. absurd (cc)) in
                  (r, rw q (ground (arith, h, le, old, e)), rw q (passed cursor fire h old r x)))
          ]
        ]
      ]
    ]
      where
        never : {t : ℕ} → next_after tz expr cursor ≡ none → Chain cursor t → ⊥
        never over (first h) = absurd (ground (arith, over, h))
        never over (then' u h c) = absurd (ground (arith, over, h))

        less :
            (fire : ℕ)
            → next_after tz expr cursor ≡ some fire
            → leb fire now ≡ true
            → now - fire < fuel
        less fire h le = ground (arith, next_after-later tz expr cursor fire h, le, enough)

    -- what an answer of `most_recent_missed` says
    abbrev pub IsSelected : ℕ → Option ℕ → Type 0
    IsSelected last_seen none =
        (signed window ≡ none) ⊎ (window ≡ 0) ⊎ NoneRecent (scan_start window now last_seen)
    IsSelected last_seen (some t) =
        (last_seen < t) × IsMostRecent (scan_start window now last_seen) t

    -- `most_recent_missed` always returns. A fire that it returns is after `last_seen` and not after
    -- `now`, is on time or within the window, and no fire between it and `now` follows it. Where it
    -- returns none, the window is zero or longer than a SignedDuration, or no fire up to `now` from
    -- the start of the scan, the latest of `last_seen` and the window's own start, is on time or
    -- within the window.
    pub most_recent_missed-IsSelected :
        (last_seen : ℕ)
        → (r : Option ℕ) × (most_recent_missed tz expr window now last_seen ≡ some r)
          × IsSelected last_seen r
    unfolding most_recent_missed
    most_recent_missed-IsSelected last_seen = elim (Bool-cases (leb window signed_max)) [
      | inr long ↦ (none, ground (arith, long), inl (ground (arith, long)))
      | inl short ↦ elim (Bool-cases (ltb 0 window)) [
        | inr zero' ↦ (none, ground (arith, short, zero'), inr (inl (ground (arith, zero'))))
        | inl positive ↦
            (let (r, e, x) =
                scan-Ends (suc (now - start)) start none (omega arith) (λ b q. absurd (cc)) in
              (r, ground (arith, short, positive, e), selected r x))
      ]
    ]
      where
        start : ℕ
        start = scan_start window now last_seen

        selected :
            (r : Option ℕ) → Selects (scan_start window now last_seen) r → IsSelected last_seen r
        selected none x = inr (inr x)
        selected (some t) m = (ground (arith, Chain-later m.reached), m)
