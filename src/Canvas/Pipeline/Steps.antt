-- ===== src/Canvas/Pipeline/Steps.antt =====
-- Pipeline3DScroll.tsx: the stages that the controls reach.
use cloud_weave.Prelude.{
  ℕ, zero, suc, ◌≤◌, Bool, true, false, List, [], ◌∷◌, ◌++◌, ◌==◌, if◌then◌else◌, ◌≡◌, refl, arith,
}
use cloud_weave.Html.{clicks}
use cloud_weave.Canvas.Pipeline.Stages.{stages}
use cloud_weave.Canvas.Pipeline.{
  Walk, initial, Event, choose, previous, next, toggle_code, media_changed, handle, current_stage,
}
use cloud_weave.Canvas.Pipeline.View.{view}

-- The events of the tabs, of the other buttons and of the media query.
pub data Offered : Event → Type 0 where
  tab : (id : ℕ) → 1 ≤ id → id ≤ 6 → Offered (choose id)
  back : Offered previous
  forth : Offered next
  show_or_hide : Offered toggle_code
  media : (matches : Bool) → Offered (media_changed matches)

pub data Reachable : Walk → Type 0 where
  open_page : (matches : Bool) → Reachable (initial matches)
  event : {s : Walk} {e : Event} → Reachable s → Offered e → Reachable (handle e s)

pub record InRange (s : Walk) : Type 0 where
  pub low : 1 ≤ s.active_stage_id
  pub high : s.active_stage_id ≤ 6

handle-InRange : (s : Walk) {e : Event} → Offered e → InRange s → InRange (handle e s)
unfolding handle stages
handle-InRange s (tab id l h) i = ground arith
handle-InRange s back i = ground arith
handle-InRange s forth i = ground arith
handle-InRange s show_or_hide i = ground arith
handle-InRange s (media matches) i = ground arith

pub Reachable-InRange : {s : Walk} → Reachable s → InRange s
Reachable-InRange (open_page matches) = record { low = omega arith; high = omega arith }
Reachable-InRange (event {s} r o) = handle-InRange s o (Reachable-InRange r)

-- What is offered at a stage.
abbrev pub offers : ℕ → List Event
offers id =
    choose 1
    ∷ choose 2
    ∷ choose 3
    ∷ choose 4
    ∷ choose 5
    ∷ choose 6
    ∷ toggle_code
    ∷ ((if id == 1 then [] else previous ∷ []) ++ (if id == 6 then [] else next ∷ []))

-- What the page of a stage shows and offers.
pub record Agrees (s : Walk) : Type 0 where
  pub found : (current_stage s).id ≡ s.active_stage_id
  pub buttons : clicks (view s) ≡ offers s.active_stage_id

abbrev walk : ℕ → Bool → Bool → Walk
walk id shown reduced = record {
  active_stage_id = id;
  show_code = shown;
  prefers_reduced_motion = reduced;
}

both :
    (c m : Bool) (P : Bool → Bool → Type 0)
    → P true true
    → P true false
    → P false true
    → P false false
    → P c m
both true true P a b d e = a
both true false P a b d e = b
both false true P a b d e = d
both false false P a b d e = e

agrees :
    (id : ℕ) (shown reduced : Bool)
    → 1 ≤ id
    → id ≤ 6
    → Agrees (record { active_stage_id = id; show_code = shown; prefers_reduced_motion = reduced })
unfolding current_stage stages view
agrees zero shown reduced l h = let bad : ⊥ = omega arith in elim bad [ ]
agrees (suc zero) shown reduced l h = record {
  found = refl;
  buttons = both shown reduced (λ c m. clicks (view (walk 1 c m)) ≡ offers 1) refl refl refl refl;
}
agrees (suc (suc zero)) shown reduced l h = record {
  found = refl;
  buttons = both shown reduced (λ c m. clicks (view (walk 2 c m)) ≡ offers 2) refl refl refl refl;
}
agrees (suc (suc (suc zero))) shown reduced l h = record {
  found = refl;
  buttons = both shown reduced (λ c m. clicks (view (walk 3 c m)) ≡ offers 3) refl refl refl refl;
}
agrees (suc (suc (suc (suc zero)))) shown reduced l h = record {
  found = refl;
  buttons = both shown reduced (λ c m. clicks (view (walk 4 c m)) ≡ offers 4) refl refl refl refl;
}
agrees (suc (suc (suc (suc (suc zero))))) shown reduced l h = record {
  found = refl;
  buttons = both shown reduced (λ c m. clicks (view (walk 5 c m)) ≡ offers 5) refl refl refl refl;
}
agrees (suc (suc (suc (suc (suc (suc zero)))))) shown reduced l h = record {
  found = refl;
  buttons = both shown reduced (λ c m. clicks (view (walk 6 c m)) ≡ offers 6) refl refl refl refl;
}
agrees (suc (suc (suc (suc (suc (suc (suc n))))))) shown reduced l h =
    let bad : ⊥ = omega arith in elim bad [ ]

-- In every reachable state the stage is one of the six, the stage that is shown is the one chosen, and
-- the page offers the six tabs, the switch of the code, the previous stage at all but the first and the
-- next stage at all but the last.
pub Reachable-Agrees : {s : Walk} → Reachable s → InRange s × Agrees s
Reachable-Agrees {s} r =
    let i = Reachable-InRange r in
    (i, agrees s.active_stage_id s.show_code s.prefers_reduced_motion i.low i.high)
