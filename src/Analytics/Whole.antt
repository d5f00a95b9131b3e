-- ===== src/Analytics/Whole.antt =====
-- RecordBatch of internal/analytics/clickhouse.go records a whole batch or nothing.
use mathlib.Core.List.{append-nil, append_assoc}
use mathlib.Core.Path.{subst}
use native.Mathlib.Omega.{arith}
use pulse_data.Prelude.{◌≡◌, ◌≢◌, refl, sym, ◌⊎◌, inl, inr, Option, none, some, List, [], ◌∷◌, ◌++◌}
use pulse_data.Events.{Event}
use pulse_data.Errors.{Error}
use pulse_data.Analytics.{
  Call, prepared, appended, sent, Env, after_append, after_prepare, append_all, record_batch,
}

-- What was appended to the batch that was prepared last.
abbrev pub gathered : List Call → List Event
gathered (appended e none ∷ h) = gathered h ++ (e ∷ [])
gathered _ = []

-- What the last call has sent.
abbrev pub delivered : List Call → List Event
delivered (sent none ∷ h) = gathered h
delivered _ = []

abbrev pub IsWhole : List Event → Option Error × List Call → Type 0
IsWhole batch (r, h) = ((r ≡ none) × (delivered h ≡ batch)) ⊎ ((r ≢ none) × (delivered h ≡ []))

module _ (env : Env) where
  append_all-IsWhole :
      (batch : List Event) (h : List Call) → IsWhole (gathered h ++ batch) (append_all env batch h)
  unfolding append_all
  append_all-IsWhole [] h = by_answer (env.send h)
    where
      by_answer : (a : Option Error) → IsWhole (gathered h ++ []) (a, sent a ∷ h)
      by_answer none = inl (refl, sym (append-nil (gathered h)))
      by_answer (some x) = inr (ground arith, refl)
  append_all-IsWhole (e ∷ es) h =
      by_answer (append_all-IsWhole es (appended e none ∷ h)) (env.append e h)
    where
      by_answer :
          IsWhole ((gathered h ++ e ∷ []) ++ es) (append_all env es (appended e none ∷ h))
          → (a : Option Error)
          → IsWhole
              (gathered h ++ e ∷ es)
              (after_append env (append_all env es) a (appended e a ∷ h))
      by_answer ih none =
          subst (λ (es' : List Event). IsWhole es' (append_all env es (appended e none ∷ h)))
            (append_assoc (gathered h) (e ∷ []) es) ih
      by_answer ih (some x) = ground arith

  -- RecordBatch returns without an error exactly if what its last call has sent is the batch, in
  -- its order; with an error its last call has sent nothing.
  pub record_batch-IsWhole : (batch : List Event) → IsWhole batch (record_batch env batch [])
  unfolding record_batch
  record_batch-IsWhole [] = inl (refl, refl)
  record_batch-IsWhole (e ∷ es) = by_answer (env.prepare [])
    where
      by_answer :
          (a : Option Error) → IsWhole (e ∷ es) (after_prepare env (e ∷ es) a (prepared a ∷ []))
      by_answer none = append_all-IsWhole (e ∷ es) (prepared none ∷ [])
      by_answer (some x) = ground arith
