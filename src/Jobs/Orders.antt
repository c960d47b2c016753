-- ===== src/Jobs/Orders.antt =====
-- The events of a loop whose rounds run in another order.
use mathlib.Core.List.{Perm, Permᴰ, Perm-prop, perm_append_comm}
use mathlib.Core.List.Perm
use mathlib.Core.Logic.{∥∥₁_elim}
use kube_burner.Prelude.{List, [], ◌∷◌, ◌++◌, subst, append_assoc}
use kube_burner.Executor.{Event}
use kube_burner.Jobs.Does.{events_of}

module _ {A : Type 0} (plan : A → List Event) where
  exchanged : (xs ys zs : List Event) → Perm (xs ++ (ys ++ zs)) (ys ++ (xs ++ zs))
  exchanged xs ys zs =
      subst (λ t. Perm t (ys ++ (xs ++ zs))) (append_assoc xs ys zs)
        (subst (λ t. Perm ((xs ++ ys) ++ zs) t) (append_assoc ys xs zs)
          (Perm.append_right zs (perm_append_comm xs ys)))

  events_of-Permᴰ : {xs ys : List A} → Permᴰ xs ys → Perm (events_of plan xs) (events_of plan ys)
  events_of-Permᴰ Permᴰ.nil = Perm.refl []
  events_of-Permᴰ (Permᴰ.cons {a} {b} {l₁} {l₂} e d) =
      subst (λ c. Perm (plan a ++ events_of plan l₁) (plan c ++ events_of plan l₂)) e
        (Perm.append_left (plan a) (events_of-Permᴰ d))
  events_of-Permᴰ (Permᴰ.swap {a} {b} {a' = c} {b' = d} {l} e f) =
      subst (λ x. Perm (events_of plan (a ∷ b ∷ l)) (plan x ++ (plan d ++ events_of plan l))) f
        (subst (λ x. Perm (events_of plan (a ∷ b ∷ l)) (plan b ++ (plan x ++ events_of plan l))) e
          (exchanged (plan a) (plan b) (events_of plan l)))
  events_of-Permᴰ (Permᴰ.trans d e) = Perm.trans (events_of-Permᴰ d) (events_of-Permᴰ e)

  pub events_of-Perm : {xs ys : List A} → Perm xs ys → Perm (events_of plan xs) (events_of plan ys)
  events_of-Perm {xs} {ys} h =
      ∥∥₁_elim h (Perm-prop {l₁ = events_of plan xs} {l₂ = events_of plan ys}) events_of-Permᴰ
