-- ===== src/Interconnect/Writes/Laws.antt =====
-- axi_interconnect/AXI_Interconnect.cpp: the responses that wait for their masters.
use axi_interconnect_kit.Interconnect.State.{State, WriteRespBuffer, WriteRespEntry}
use axi_interconnect_kit.Interconnect.Writes.{
  enqueue_write_resp, promote_buffer, write_resp_buffer_has_space, push_response,
}
use axi_interconnect_kit.Llc.{Limits}
use axi_interconnect_kit.Prelude.{
  List, [], ap, false, if_cases, if◌then◌else◌, ltb, map, not, refl, true, ℕ, ◌++◌, ◌<◌, ◌∷◌, ◌≡◌,
  ◌≢◌, Bool, Bool-cases, inl, inr, lt→ltb, arith,
}
use axi_interconnect_kit.Prelude.Arrays.{update_ne, update_self}

abbrev pub answer : WriteRespEntry → ℕ × ℕ
answer entry = (entry.id, entry.resp)

-- The responses of a buffer, with their IDs, in the order in which the master gets them.
unfoldable pub waiting : WriteRespBuffer → List (ℕ × ℕ)
waiting buf =
    let rest = map answer buf.w_resp_queue in
    if buf.w_resp_valid then (buf.w_resp_id, buf.w_resp_resp) ∷ rest else rest

-- Where no response is offered, none waits.
unfoldable pub IsPacked : WriteRespBuffer → Type 0
IsPacked buf = buf.w_resp_valid ≡ false → buf.w_resp_queue ≡ []

map-append_one :
    (es : List WriteRespEntry) (e : WriteRespEntry)
    → map answer (es ++ (e ∷ [])) ≡ map answer es ++ (answer e ∷ [])
map-append_one [] e = refl
map-append_one (x ∷ es) e = ap (λ r. answer x ∷ r) (map-append_one es e)

-- A response that has space goes to the end.
pub push_response-waiting :
    (e : WriteRespEntry) (buf : WriteRespBuffer)
    → IsPacked buf
    → waiting (push_response true e buf) ≡ waiting buf ++ (answer e ∷ [])
unfolding waiting push_response IsPacked
push_response-waiting e buf p = elim (Bool-cases buf.w_resp_valid) [
  | inl v ↦
      rw v (ap (λ r. (buf.w_resp_id, buf.w_resp_resp) ∷ r) (map-append_one buf.w_resp_queue e))
  | inr v ↦ rw (v, p v) refl
]

pub push_response-IsPacked :
    (space : Bool) (e : WriteRespEntry) (buf : WriteRespBuffer)
    → IsPacked buf
    → IsPacked (push_response space e buf)
unfolding push_response IsPacked
push_response-IsPacked space e buf p = λ h. ground arith

pub promote-waiting :
    (buf : WriteRespBuffer) → waiting (promote_buffer buf buf.w_resp_queue) ≡ waiting buf
unfolding waiting promote_buffer
promote-waiting buf = helper buf.w_resp_queue refl
  where
    helper :
        (q : List WriteRespEntry)
        → buf.w_resp_queue ≡ q
        → waiting (promote_buffer buf q) ≡ waiting buf
    helper [] e = refl
    helper (x ∷ q) e = elim (Bool-cases buf.w_resp_valid) [
      | inl v ↦ rw (v, e) refl
      | inr v ↦ rw (v, e) refl
    ]

pub promote-IsPacked : (buf : WriteRespBuffer) → IsPacked (promote_buffer buf buf.w_resp_queue)
unfolding promote_buffer IsPacked
promote-IsPacked buf = helper buf.w_resp_queue refl
  where
    helper : (q : List WriteRespEntry) → buf.w_resp_queue ≡ q → IsPacked (promote_buffer buf q)
    helper [] e = λ h. e
    helper (x ∷ q) e = λ h. ground arith

module _ (limits : Limits) (s : State) (m : ℕ) (e : WriteRespEntry) where
  pub enqueue_self :
      m < 2
      → (enqueue_write_resp limits s m e).resp_buffer m
        ≡ push_response (write_resp_buffer_has_space limits s m) e (s.resp_buffer m)
  unfolding enqueue_write_resp
  enqueue_self l =
      if_cases
        (λ (t : State).
          t.resp_buffer m
          ≡ push_response (write_resp_buffer_has_space limits s m) e (s.resp_buffer m))
        (not (ltb m 2)) _ _ (λ h. let q = lt→ltb m 2 l in absurd (cc))
        (λ h.
          update_self s.resp_buffer m (push_response (write_resp_buffer_has_space limits s m) e))

  pub enqueue_other :
      (j : ℕ) → m ≢ j → (enqueue_write_resp limits s m e).resp_buffer j ≡ s.resp_buffer j
  unfolding enqueue_write_resp
  enqueue_other j n =
      if_cases (λ (t : State). t.resp_buffer j ≡ s.resp_buffer j) (not (ltb m 2)) _ _ (λ h. refl)
        (λ h.
          update_ne s.resp_buffer m j (push_response (write_resp_buffer_has_space limits s m) e) n)
