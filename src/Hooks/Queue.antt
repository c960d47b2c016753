-- ===== src/Hooks/Queue.antt =====
-- The channel of the results of background hooks, as a bounded queue.
use kube_burner.Prelude.{
  ℕ, zero, suc, ◌≤◌, ltb, false, List, [], ◌∷◌, ◌++◌, length, length-append, take, ◌≡◌, refl, sym,
  ap, ◌∙◌, append_assoc, append-nil, arith, Bool-cases, inl, inr, ltb→lt,
}
use kube_burner.Hooks.{
  HookResult, HookManager, MonitorEnd, exited, cancelled, monitor_background_hook, monitor_all,
  drain, wait_background_hooks,
}

-- The results of the processes that ended, in the order of their ends.
abbrev pub results_of : List MonitorEnd → List HookResult
results_of [] = []
results_of (cancelled ∷ ends) = results_of ends
results_of (exited err duration ∷ ends) =
    record { err = err; duration = duration } ∷ results_of ends

take-all : (n : ℕ) (xs : List HookResult) → length xs ≤ n → take n xs ≡ xs
take-all zero [] h = refl
take-all zero (x ∷ xs) h = absurd (omega arith)
take-all (suc n) [] h = refl
take-all (suc n) (x ∷ xs) h = ap (λ rest. x ∷ rest) (take-all n xs (omega arith))

take-front : (n : ℕ) (xs ys : List HookResult) → length xs ≡ n → take n (xs ++ ys) ≡ xs
take-front zero [] ys h = refl
take-front zero (x ∷ xs) ys h = absurd (omega arith)
take-front (suc n) [] ys h = absurd (omega arith)
take-front (suc n) (x ∷ xs) ys h = ap (λ rest. x ∷ rest) (take-front n xs ys (omega arith))

drain-append : (results chan : List HookResult) → drain results chan ≡ results ++ chan
unfolding drain
drain-append results [] = sym (append-nil results)
drain-append results (r ∷ chan) =
    drain-append (results ++ (r ∷ [])) chan ∙ append_assoc results (r ∷ []) chan

monitor_all-take :
    (ends : List MonitorEnd) (hm : HookManager)
    → length hm.result_chan ≤ hm.capacity
    → ((monitor_all ends hm).result_chan ≡ take hm.capacity (hm.result_chan ++ results_of ends))
      × ((monitor_all ends hm).capacity ≡ hm.capacity)
unfolding monitor_all monitor_background_hook
monitor_all-take [] hm h = (
  sym (ap (take hm.capacity) (append-nil hm.result_chan) ∙ take-all hm.capacity hm.result_chan h),
  refl,
)
monitor_all-take (cancelled ∷ ends) hm h = monitor_all-take ends hm h
monitor_all-take (exited err duration ∷ ends) hm h =
    elim (Bool-cases (ltb (length hm.result_chan) hm.capacity)) [
      | inl room ↦
          rw (room, monitor_all, monitor_background_hook)
            (let result : HookResult = record { err = err; duration = duration } in
              let later =
                monitor_all-take ends (record hm { result_chan = hm.result_chan ++ (result ∷ []) })
                  (omega (arith, ltb→lt, room, length-append hm.result_chan (result ∷ []))) in
              (
                later.0
                    ∙ ap (take hm.capacity)
                        (append_assoc hm.result_chan (result ∷ []) (results_of ends)),
                later.1,
              ))
      | inr full ↦
          rw (full, monitor_all, monitor_background_hook)
            (let later = monitor_all-take ends hm h in
              let exact = is_full full in
              (
                later.0
                    ∙ take-front hm.capacity hm.result_chan (results_of ends) exact
                    ∙ sym (take-front hm.capacity hm.result_chan _ exact),
                later.1,
              ))
    ]
  where
    is_full : ltb (length hm.result_chan) hm.capacity ≡ false → length hm.result_chan ≡ hm.capacity
    is_full full = ground arith

-- WaitBackgroundHooks returns the results that are in the channel and those of the processes that
-- end, in the order of their ends, as many of them as the channel has places; the rest is lost. The
-- channel behind it is empty and as large as before, and no monitor runs. The channel holds at most
-- as many results as it has places.
pub wait_background_hooks-take :
    (ends : List MonitorEnd) (hm : HookManager)
    → length hm.result_chan ≤ hm.capacity
    → ((wait_background_hooks ends hm).0 ≡ take hm.capacity (hm.result_chan ++ results_of ends))
      × ((wait_background_hooks ends hm).1.result_chan ≡ [])
      × ((wait_background_hooks ends hm).1.capacity ≡ hm.capacity)
      × ((wait_background_hooks ends hm).1.running ≡ [])
unfolding wait_background_hooks
wait_background_hooks-take ends hm h =
    let all = monitor_all-take ends hm h in
    (drain-append [] (monitor_all ends hm).result_chan ∙ all.0, refl, all.1, refl)
