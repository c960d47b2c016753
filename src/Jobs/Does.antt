-- ===== src/Jobs/Does.antt =====
-- Programs that leave the executor as it is: what they return, and the events that they add.
use mathlib.Core.Bool.{true≢false}
use kube_burner.Prelude.{
  ℕ, suc, Bool, true, false, List, [], ◌∷◌, ◌++◌, some, if◌then◌else◌, ◌≡◌, refl, sym, ap, subst,
  ◌∙◌, append_assoc, append-nil,
}
use kube_burner.Executor.{
  World, JobExecutor, Event, M, pure, ◌>>=◌, ◌>>◌, get_executor, emit, ask, for_each, >>=_at,
}

abbrev pub with_events : World → ℕ → List Event → World
with_events w n events = record w { clock = n; trace = w.trace ++ events }

-- From every world with this executor, the program returns the value, adds the events and changes
-- nothing else but the count of questions.
abbrev pub Does : {A : Type 0} → JobExecutor → M A → A → List Event → Type 0
Does ex m a events =
    (w : World) → w.executor ≡ ex → (n : ℕ) × (m w ≡ some (a, with_events w n events))

-- The events of a loop, element by element.
abbrev pub events_of {ℓ} : {A : Type ℓ} → (A → List Event) → List A → List Event
events_of plan [] = []
events_of plan (x ∷ xs) = plan x ++ events_of plan xs

module _ (ex : JobExecutor) where
  pub Does-pure : {A : Type 0} (a : A) → Does ex (pure a) a []
  Does-pure a w e = (w.clock, ap (λ t. some (a, record w { trace = t })) (sym (append-nil w.trace)))

  pub Does-get_executor : Does ex get_executor ex []
  Does-get_executor w e = (
    w.clock,
    ap (λ x. some (x, w)) e
        ∙ ap (λ t. some (ex, record w { trace = t })) (sym (append-nil w.trace)),
  )

  pub Does-emit : (event : Event) → Does ex (emit event) tt (event ∷ [])
  Does-emit event w e = (w.clock, refl)

  pub Does-ask : {A : Type 0} (f : ℕ → A) (a : A) → ((n : ℕ) → f n ≡ a) → Does ex (ask f) a []
  Does-ask f a h w e = (
    suc w.clock,
    ap (λ x. some (x, record w { clock = suc w.clock })) (h w.clock)
        ∙ ap (λ t. some (a, record w { clock = suc w.clock; trace = t }))
            (sym (append-nil w.trace)),
  )

  pub Does-bind :
      {A B : Type 0} (m : M A) (f : A → M B) (a : A) (b : B) (events more : List Event)
      → Does ex m a events
      → Does ex (f a) b more
      → Does ex (m >>= f) b (events ++ more)
  Does-bind m f a b events more first second w e =
      let one = first w e in
      let two = second (with_events w one.0 events) e in
      (
        two.0,
        >>=_at m f one.1
            ∙ two.1
            ∙ ap (λ t. some (b, record w { clock = two.0; trace = t }))
                (append_assoc w.trace events more),
      )

  pub Does-then :
      {B : Type 0} (m : M (Unit {0})) (n : M B) (b : B) (events more : List Event)
      → Does ex m tt events
      → Does ex n b more
      → Does ex (m >> n) b (events ++ more)
  Does-then m n b events more first second = Does-bind m (λ done. n) tt b events more first second

  pub Does-with :
      {B : Type 0} (f : JobExecutor → M B) (b : B) (events : List Event)
      → Does ex (f ex) b events
      → Does ex (get_executor >>= f) b events
  Does-with f b events h = Does-bind get_executor f ex b [] events Does-get_executor h

  pub Does-eq :
      {A : Type 0} (m : M A) (a : A) (events same : List Event)
      → events ≡ same
      → Does ex m a events
      → Does ex m a same
  Does-eq m a events same e h = subst (λ es. Does ex m a es) e h

  pub Does-if :
      {A : Type 0} (b : Bool) (m n : M A) (a : A) (yes_events no_events : List Event)
      → Does ex m a yes_events
      → Does ex n a no_events
      → Does ex (if b then m else n) a (if b then yes_events else no_events)
  Does-if true m n a yes_events no_events h j = h
  Does-if false m n a yes_events no_events h j = j

  pub Does-else :
      {A : Type 0} (b : Bool) (m n : M A) (a : A) (events : List Event)
      → b ≡ false
      → Does ex n a events
      → Does ex (if b then m else n) a events
  Does-else true m n a events e h = absurd (true≢false e)
  Does-else false m n a events e h = h

  pub Does-for_each :
      {A : Type 0} (body : A → M (Unit {0})) (plan : A → List Event)
      → ((x : A) → Does ex (body x) tt (plan x))
      → (xs : List A) → Does ex (for_each xs body) tt (events_of plan xs)
  Does-for_each body plan h [] = Does-pure tt
  Does-for_each body plan h (x ∷ xs) =
      Does-bind (body x) (λ done. for_each xs body) tt tt (plan x) (events_of plan xs) (h x)
        (Does-for_each body plan h xs)
