-- ===== src/Create/Setup/Totals.antt =====
-- ex.midPoint.totalReplicas, as setupCreateJob leaves it.
use kube_burner.Prelude.{
  ℕ, suc, ◌+◌, ◌*◌, ◌<◌, ◌^◌, Bool, true, false, List, [], ◌∷◌, ◌++◌, Option, some, ◌≡◌, refl, ◌∙◌,
  ap, arith, if◌then◌else◌, All, str_eq, ◌&&◌, Bool-cases, inl, inr,
}
use kube_burner.Prelude.Int.{ℤ, pos, pos_part, ltb_ℤ, add64-pos, mul64-pos}
use kube_burner.Config.Types.{Object, Job}
use kube_burner.Executor.{World, ManagedObject, Cluster, MidPointTracker, ◌>>◌, >>_at}
use kube_burner.Create.Objects.{require_namespace}
use kube_burner.Create.Setup.{
  Template, Document, planned_replicas, setup_create_job, add_templates, add_template,
  add_documents, add_total, append_object, object_of,
}

-- The replicas of the templates, each as often as there are iterations, or once.
abbrev pub planned : ℕ → List Object → ℕ
planned n [] = 0
planned n (o ∷ os) = pos_part o.replicas * (if o.run_once then 1 else n) + planned n os

-- A step that leaves the job and the tracker alone.
abbrev Same : World → World → Type 0
Same w w' = (w'.executor.job ≡ w.executor.job) × (w'.executor.mid_point ≡ w.executor.mid_point)

require_namespace-Same :
    (obj : ManagedObject) (w : World)
    → (w' : World) × ((require_namespace obj w ≡ some (tt, w')) × Same w w')
unfolding require_namespace
require_namespace-Same obj w = elim (Bool-cases (obj.namespaced && str_eq obj.namespace "")) [
  | inl e ↦
      (record w { executor = record w.executor { ns_required = true } }, (rw e refl, (refl, refl)))
  | inr e ↦ (w, (rw e refl, (refl, refl)))
]

add_documents-Same :
    (k : Cluster) (load : Object → Option Template) (o : Object) (templated : Bool) (i : ℕ)
    (docs : List Document) (w : World)
    → (w' : World) × ((add_documents k load o templated i docs w ≡ some (tt, w')) × Same w w')
unfolding add_documents append_object
add_documents-Same k load o templated i [] w = (w, (refl, (refl, refl)))
add_documents-Same k load o templated i (doc ∷ docs) w =
    let obj = object_of o i doc templated (k.rest_mapping w.clock doc.gvk) in
    let w1 : World = record w { clock = suc w.clock } in
    let req = require_namespace-Same obj w1 in
    let w2 : World = record (req.0) {
      executor = record (req.0.executor) { objects = req.0.executor.objects ++ (obj ∷ []) };
    } in
    let rest = add_documents-Same k load o templated (suc i) docs w2 in
    (
      rest.0,
      (
        >>_at (require_namespace obj)
              (append_object obj >> add_documents k load o templated (suc i) docs) req.1.0
            ∙ rest.1.0,
        (rest.1.1.0 ∙ req.1.1.0, rest.1.1.1 ∙ req.1.1.1),
      ),
    )

-- The tracker with a total, before any creation.
abbrev pub fresh_tracker : ℕ → MidPointTracker
fresh_tracker t = record { total_replicas = pos t; created_replicas = 0; fired = false }

-- A template that is read.
abbrev pub IsRead : (Object → Option Template) → Object → Type 0
IsRead load o = (t : Template) × (load o ≡ some t)

below_63 :
    (m n : ℕ) (o : Object)
    → o.run_once ≡ false
    → m * (if o.run_once then 1 else n) < 2 ^ 62
    → m * n < 2 ^ 63
below_63 m n o e h = ground arith

planned_of :
    (n : ℕ) (o : Object) (m : ℕ)
    → o.replicas ≡ pos m
    → m * (if o.run_once then 1 else n) < 2 ^ 62
    → planned_replicas (pos n) o ≡ pos (m * (if o.run_once then 1 else n))
unfolding planned_replicas
planned_of n o m e h = elim (Bool-cases o.run_once) [
  | inl once ↦ simp (once, e) (ground arith)
  | inr once ↦ simp (once, e) (mul64-pos m n (below_63 m n o once h))
]

few_parts : (z : ℤ) → ltb_ℤ z (pos 1) ≡ true → pos_part z ≡ 0
few_parts z h = ground arith

many_parts : (z : ℤ) → ltb_ℤ z (pos 1) ≡ false → z ≡ pos (pos_part z)
many_parts z h = ground arith

planned_many :
    (n : ℕ) (o : Object)
    → ltb_ℤ o.replicas (pos 1) ≡ false
    → pos_part o.replicas * (if o.run_once then 1 else n) < 2 ^ 62
    → planned_replicas (pos n) o ≡ pos (pos_part o.replicas * (if o.run_once then 1 else n))
planned_many n o many h = planned_of n o (pos_part o.replicas) (many_parts o.replicas many) h

abbrev Adds : (World → Option (Unit {0} × World)) → ℕ → World → Type 0
Adds m t w =
    (w' : World) × ((m w ≡ some (tt, w'))
      × ((w'.executor.job ≡ w.executor.job) × (w'.executor.mid_point ≡ some (fresh_tracker t))))

add_total-Adds :
    (t m : ℕ) (w : World)
    → w.executor.mid_point ≡ some (fresh_tracker t)
    → t < 2 ^ 62
    → m < 2 ^ 62
    → Adds (add_total (pos m)) (t + m) w
unfolding add_total
add_total-Adds t m w e ht hm = (
  record w { executor = record w.executor { mid_point = some (fresh_tracker (t + m)) } },
  (ground (arith, add64-pos t m, e), (refl, refl)),
)

add_template-Adds :
    (k : Cluster) (load : Object → Option Template) (o : Object) (n t : ℕ) (w : World)
    → IsRead load o
    → w.executor.job.job_iterations ≡ pos n
    → w.executor.mid_point ≡ some (fresh_tracker t)
    → t + pos_part o.replicas * (if o.run_once then 1 else n) < 2 ^ 62
    → Adds (add_template k load o) (t + pos_part o.replicas * (if o.run_once then 1 else n)) w
unfolding add_template
add_template-Adds k load o n t w read hn ht h =
    let v = pos_part o.replicas * (if o.run_once then 1 else n) in
    elim (Bool-cases (ltb_ℤ o.replicas (pos 1))) [
      | inl few ↦
          let none_added : t ≡ t + v = rw (few_parts o.replicas few) (omega arith) in
          (w, (rw few refl, (refl, ht ∙ ap (λ (z : ℕ). some (fresh_tracker z)) none_added)))
      | inr many ↦
          let planned_v = planned_many n o many (omega (arith, h)) in
          let add = add_total-Adds t v w ht (omega arith) (omega arith) in
          let docs = add_documents-Same k load o read.0.templated_gvk 0 read.0.documents add.0 in
          let total_step : add_total (planned_replicas w.executor.job.job_iterations o) w
              ≡ some (tt, add.0) =
            ap (λ (z : ℤ). add_total z w) (ap (λ (z : ℤ). planned_replicas z o) hn ∙ planned_v)
            ∙ add.1.0 in
          (
            docs.0,
            (
              rw many (
                  >>_at (add_total (planned_replicas w.executor.job.job_iterations o)) _ total_step
                  ∙ rw (read.1) docs.1.0),
              (docs.1.1.0 ∙ add.1.1.0, docs.1.1.1 ∙ add.1.1.1),
            ),
          )
    ]

add_templates-Adds :
    (k : Cluster) (load : Object → Option Template) (os : List Object) (n t : ℕ) (w : World)
    → All (IsRead load) os
    → w.executor.job.job_iterations ≡ pos n
    → w.executor.mid_point ≡ some (fresh_tracker t)
    → t + planned n os < 2 ^ 62
    → Adds (add_templates k load os) (t + planned n os) w
unfolding add_templates
add_templates-Adds k load [] n t w read hn ht h =
    (w, (refl, (refl, ht ∙ ap (λ (z : ℕ). some (fresh_tracker z)) (omega arith))))
add_templates-Adds k load (o ∷ os) n t w read hn ht h =
    let v = pos_part o.replicas * (if o.run_once then 1 else n) in
    let one = add_template-Adds k load o n t w read.0 hn ht (omega (arith, h)) in
    let more =
      add_templates-Adds k load os n (t + v) one.0 read.1
        (ap (λ (j : Job). j.job_iterations) one.1.1.0 ∙ hn) one.1.1.1 (omega (arith, h)) in
    (
      more.0,
      (
        >>_at (add_template k load o) (add_templates k load os) one.1.0 ∙ more.1.0,
        (more.1.1.0 ∙ one.1.1.0, more.1.1.1 ∙ ap (λ (z : ℕ). some (fresh_tracker z)) (omega arith)),
      ),
    )

-- setupCreateJob returns where every template can be read, the job is unchanged, and the total that
-- MidPoint is reckoned from is the sum of the templates' replicas, those that are not run once times
-- the job's iterations; a template with replicas below 1 adds nothing. The conditions: the iterations
-- are not negative, and the sum is below 2^62.
pub setup_create_job-planned :
    (k : Cluster) (load : Object → Option Template) (n : ℕ) (w : World)
    → All (IsRead load) w.executor.job.objects
    → w.executor.job.job_iterations ≡ pos n
    → planned n w.executor.job.objects < 2 ^ 62
    → (w' : World) × ((setup_create_job k load w ≡ some (tt, w'))
        × ((w'.executor.job ≡ w.executor.job)
            × (w'.executor.mid_point ≡ some (fresh_tracker (planned n w.executor.job.objects)))))
unfolding setup_create_job
setup_create_job-planned k load n w read hn h =
    let sum =
      add_templates-Adds k load w.executor.job.objects n 0
        (record w { executor = record w.executor { mid_point = some (fresh_tracker 0) } }) read hn
        refl (omega arith) in
    (
      sum.0,
      (sum.1.0, (sum.1.1.0, sum.1.1.1 ∙ ap (λ (z : ℕ). some (fresh_tracker z)) (omega arith))),
    )
