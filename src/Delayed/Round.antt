-- ===== src/Delayed/Round.antt =====
-- One round of `_mi_page_use_delayed_free`.
use mimalloc_mc.Prelude.{
  if◌then◌else◌, ◌&&◌, not, ℕ, ap, ◌<◌, ◌≡◌, Option, none, some, ◌⊎◌, ◌≢◌, refl, ◌∙◌, sym, subst,
  inl, inr, Bool, true, false, arith,
}
use mimalloc_mc.Size.{word_mod}
use mimalloc_mc.ThreadFree.{
  Delayed, use_delayed_free, delayed_freeing, no_delayed_free, never_delayed_free, tf_block,
  tf_delayed, tf_set_delayed,
}
use mimalloc_mc.ThreadFree.Tags.{IsBlockPointer, tf_make_fields, tf_make-lt}
use mimalloc_mc.Delayed.{same_delayed, use_delayed_round}
use mimalloc_mc.Delayed.Invariant.{freeing_weight}

-- What a round of `_mi_page_use_delayed_free` that returns has done: the flag was not
-- `MI_DELAYED_FREEING`, and the list is as it was.
pub record IsRound (delay : Delayed) (override_never : Bool) (old new : ℕ) : Type 0 where
  pub weight : freeing_weight (tf_delayed old) ≡ 0
  pub weight_new : freeing_weight (tf_delayed new) ≡ 0
  pub same_list : tf_block new ≡ tf_block old
  pub word : new < word_mod
  pub never : override_never ≡ false → tf_delayed old ≡ never_delayed_free → new ≡ old
  pub flag :
      (tf_delayed new ≡ delay)
      ⊎ ((override_never ≡ false) × (tf_delayed old ≡ never_delayed_free) × (new ≡ old))

some-injective : {a b : ℕ} → some a ≡ some b → a ≡ b
some-injective e = cc

reset :
    (d : Delayed) (o : Bool) (tf : ℕ)
    → freeing_weight d ≡ 0
    → freeing_weight (tf_delayed tf) ≡ 0
    → IsBlockPointer (tf_block tf)
    → (o ≡ false → tf_delayed tf ≡ never_delayed_free → ⊥)
    → IsRound d o tf (tf_set_delayed tf d)
unfolding tf_set_delayed
reset d o tf w old head other =
    let fields = tf_make_fields (tf_block tf) d head in
    record {
      weight = old;
      weight_new = ap freeing_weight fields.1 ∙ w;
      same_list = fields.0;
      never = λ f g. absurd (other f g);
      word = tf_make-lt (tf_block tf) d head;
      flag = inl fields.1;
    }

leave :
    (d : Delayed) (o : Bool) (tf new : ℕ)
    → freeing_weight (tf_delayed tf) ≡ 0
    → tf < word_mod
    → tf ≡ new
    → (tf_delayed tf ≡ d) ⊎ ((o ≡ false) × (tf_delayed tf ≡ never_delayed_free))
    → IsRound d o tf new
leave d o tf new w fits e flag = record {
  weight = w;
  weight_new = rw (sym e) w;
  same_list = ap tf_block (sym e);
  never = λ _ _. sym e;
  word = omega (arith, e);
  flag = elim flag [ inl f ↦ inl (ap tf_delayed (sym e) ∙ f) | inr f ↦ inr (f.0, f.1, sym e) ];
}

changed :
    (d : Delayed) (o : Bool) (tf new : ℕ)
    → freeing_weight d ≡ 0
    → freeing_weight (tf_delayed tf) ≡ 0
    → IsBlockPointer (tf_block tf)
    → tf_set_delayed tf d ≡ new
    → (o ≡ false → tf_delayed tf ≡ never_delayed_free → ⊥)
    → IsRound d o tf new
changed d o tf new w old head e other = subst (IsRound d o tf) e (reset d o tf w old head other)

pub use_delayed_round-IsRound :
    (delay : Delayed) (override_never : Bool) (tf new : ℕ) (d : Delayed)
    → tf_delayed tf ≡ d
    → tf < word_mod
    → IsBlockPointer (tf_block tf)
    → freeing_weight delay ≡ 0
    → use_delayed_round delay override_never tf ≡ some new
    → IsRound delay override_never tf new
unfolding use_delayed_round
use_delayed_round-IsRound delayed_freeing o tf new d e fits head w h = absurd (omega (arith, w))
use_delayed_round-IsRound use_delayed_free true tf new delayed_freeing e fits head w h =
    cc (rw e at h)
use_delayed_round-IsRound use_delayed_free true tf new use_delayed_free e fits head w h =
    leave _ _ tf new (ap freeing_weight e) fits (some-injective (rw e at h)) (inl e)
use_delayed_round-IsRound use_delayed_free true tf new no_delayed_free e fits head w h =
    changed _ _ tf new refl (ap freeing_weight e) head (some-injective (rw e at h)) (λ f g. cc)
use_delayed_round-IsRound use_delayed_free true tf new never_delayed_free e fits head w h =
    changed _ _ tf new refl (ap freeing_weight e) head (some-injective (rw e at h)) (λ f g. cc)
use_delayed_round-IsRound use_delayed_free false tf new delayed_freeing e fits head w h =
    cc (rw e at h)
use_delayed_round-IsRound use_delayed_free false tf new use_delayed_free e fits head w h =
    leave _ _ tf new (ap freeing_weight e) fits (some-injective (rw e at h)) (inl e)
use_delayed_round-IsRound use_delayed_free false tf new no_delayed_free e fits head w h =
    changed _ _ tf new refl (ap freeing_weight e) head (some-injective (rw e at h)) (λ f g. cc)
use_delayed_round-IsRound use_delayed_free false tf new never_delayed_free e fits head w h =
    leave _ _ tf new (ap freeing_weight e) fits (some-injective (rw e at h)) (inr (refl, e))
use_delayed_round-IsRound no_delayed_free true tf new delayed_freeing e fits head w h =
    cc (rw e at h)
use_delayed_round-IsRound no_delayed_free true tf new use_delayed_free e fits head w h =
    changed _ _ tf new refl (ap freeing_weight e) head (some-injective (rw e at h)) (λ f g. cc)
use_delayed_round-IsRound no_delayed_free true tf new no_delayed_free e fits head w h =
    leave _ _ tf new (ap freeing_weight e) fits (some-injective (rw e at h)) (inl e)
use_delayed_round-IsRound no_delayed_free true tf new never_delayed_free e fits head w h =
    changed _ _ tf new refl (ap freeing_weight e) head (some-injective (rw e at h)) (λ f g. cc)
use_delayed_round-IsRound no_delayed_free false tf new delayed_freeing e fits head w h =
    cc (rw e at h)
use_delayed_round-IsRound no_delayed_free false tf new use_delayed_free e fits head w h =
    changed _ _ tf new refl (ap freeing_weight e) head (some-injective (rw e at h)) (λ f g. cc)
use_delayed_round-IsRound no_delayed_free false tf new no_delayed_free e fits head w h =
    leave _ _ tf new (ap freeing_weight e) fits (some-injective (rw e at h)) (inl e)
use_delayed_round-IsRound no_delayed_free false tf new never_delayed_free e fits head w h =
    leave _ _ tf new (ap freeing_weight e) fits (some-injective (rw e at h)) (inr (refl, e))
use_delayed_round-IsRound never_delayed_free true tf new delayed_freeing e fits head w h =
    cc (rw e at h)
use_delayed_round-IsRound never_delayed_free true tf new use_delayed_free e fits head w h =
    changed _ _ tf new refl (ap freeing_weight e) head (some-injective (rw e at h)) (λ f g. cc)
use_delayed_round-IsRound never_delayed_free true tf new no_delayed_free e fits head w h =
    changed _ _ tf new refl (ap freeing_weight e) head (some-injective (rw e at h)) (λ f g. cc)
use_delayed_round-IsRound never_delayed_free true tf new never_delayed_free e fits head w h =
    leave _ _ tf new (ap freeing_weight e) fits (some-injective (rw e at h)) (inl e)
use_delayed_round-IsRound never_delayed_free false tf new delayed_freeing e fits head w h =
    cc (rw e at h)
use_delayed_round-IsRound never_delayed_free false tf new use_delayed_free e fits head w h =
    changed _ _ tf new refl (ap freeing_weight e) head (some-injective (rw e at h)) (λ f g. cc)
use_delayed_round-IsRound never_delayed_free false tf new no_delayed_free e fits head w h =
    changed _ _ tf new refl (ap freeing_weight e) head (some-injective (rw e at h)) (λ f g. cc)
use_delayed_round-IsRound never_delayed_free false tf new never_delayed_free e fits head w h =
    leave _ _ tf new (ap freeing_weight e) fits (some-injective (rw e at h)) (inl e)

some_or :
    {A : Type 0} (c : Bool) (a : A) (rest : Option A)
    → rest ≢ none
    → (if c then some a else rest) ≢ none
some_or true a rest h e = cc
some_or false a rest h e = h e

pub round_returns :
    (delay : Delayed) (override_never : Bool) (tf : ℕ) (d : Delayed)
    → tf_delayed tf ≡ d
    → freeing_weight d ≡ 0
    → use_delayed_round delay override_never tf ≢ none
unfolding use_delayed_round
round_returns delay o tf use_delayed_free e w = rw e (
    some_or (same_delayed delay use_delayed_free) tf _
      (some_or (not o && same_delayed use_delayed_free never_delayed_free) tf _ (λ h. cc)))
round_returns delay o tf no_delayed_free e w = rw e (
    some_or (same_delayed delay no_delayed_free) tf _
      (some_or (not o && same_delayed no_delayed_free never_delayed_free) tf _ (λ h. cc)))
round_returns delay o tf never_delayed_free e w = rw e (
    some_or (same_delayed delay never_delayed_free) tf _
      (some_or (not o && same_delayed never_delayed_free never_delayed_free) tf _ (λ h. cc)))
round_returns delay o tf delayed_freeing e w = absurd (omega (arith, w))

pub round_weight :
    (delay : Delayed) (override_never : Bool) (tf new : ℕ) (d : Delayed)
    → tf_delayed tf ≡ d
    → use_delayed_round delay override_never tf ≡ some new
    → freeing_weight d ≡ 0
unfolding use_delayed_round
round_weight delay o tf new delayed_freeing e h = cc (rw e at h)
round_weight delay o tf new use_delayed_free e h = refl
round_weight delay o tf new no_delayed_free e h = refl
round_weight delay o tf new never_delayed_free e h = refl
