-- ===== src/Remote/Reply.antt =====
-- The way of a reply: what the driver returned to the host is what the guest's caller finds.
use fan_master_thesis.Base.{
  ℕ, suc, ◌+◌, ◌^◌, ◌≤◌, ◌<◌, ◌≡◌, refl, ap, ◌∙◌, some, List, [], ◌∷◌, length, arith, le_bytes,
  length-le_bytes, write_at-fits, length-write_at, splice,
}
use fan_master_thesis.Stream.Response.{
  Response, msize, result_size, set_curesult, curesult, get_all, reset,
}
use fan_master_thesis.Stream.Response.RoundTrip.{
  AnswersAll, effects, get_all-put_all-from, curesult-put_all,
}
use fan_master_thesis.Stream.Response.Room.{footprints, put_all-Moves}
use fan_master_thesis.Client.{
  CudaClient, wait_recv, CallArg, value_arg, handle_arg, result_arg, text_result_arg, text_arg,
  pointer_arg, call_targets, IsClient,
}
use fan_master_thesis.Gpu.Params.{Outcome, operands}
use fan_master_thesis.Gpu.Instance.{reply_args}
use fan_master_thesis.Remote.{givens, sent_effects}

module _ {S : Type 0} (o : Outcome S) where
  -- The results are of the types of the guest's pointers, and its arrays have room for the texts.
  abbrev pub FitsFrom : ℕ → List CallArg → Type 0
  FitsFrom i [] = Unit
  FitsFrom i (result_arg n at ∷ rest) = (o.value_at i < 256 ^ n) × FitsFrom (suc i) rest
  FitsFrom i (text_result_arg room held ∷ rest) =
      (length (o.text_at i) + 1 ≤ room) × FitsFrom (suc i) rest
  FitsFrom i (value_arg n v ∷ rest) = FitsFrom (suc i) rest
  FitsFrom i (handle_arg v ∷ rest) = FitsFrom (suc i) rest
  FitsFrom i (text_arg cs ∷ rest) = FitsFrom (suc i) rest
  FitsFrom i (pointer_arg v ∷ rest) = FitsFrom (suc i) rest

  operands-AnswersAll :
      (i : ℕ) (args : List CallArg)
      → FitsFrom i args
      → AnswersAll (operands o i (givens args)) (call_targets args)
  unfolding operands
  operands-AnswersAll i [] h = tt
  operands-AnswersAll i (result_arg n at ∷ rest) h =
      ((refl, h.0), operands-AnswersAll (suc i) rest h.1)
  operands-AnswersAll i (text_result_arg room held ∷ rest) h =
      (h.0, operands-AnswersAll (suc i) rest h.1)
  operands-AnswersAll i (value_arg n v ∷ rest) h = (refl, operands-AnswersAll (suc i) rest h)
  operands-AnswersAll i (handle_arg v ∷ rest) h = (tt, operands-AnswersAll (suc i) rest h)
  operands-AnswersAll i (text_arg cs ∷ rest) h = (tt, operands-AnswersAll (suc i) rest h)
  operands-AnswersAll i (pointer_arg v ∷ rest) h = (tt, operands-AnswersAll (suc i) rest h)

  effects-operands :
      (i : ℕ) (args : List CallArg) → effects (operands o i (givens args)) ≡ sent_effects o i args
  unfolding operands sent_effects
  effects-operands i [] = refl
  effects-operands i (result_arg n at ∷ rest) = rw (effects-operands (suc i) rest)
  effects-operands i (text_result_arg room held ∷ rest) = rw (effects-operands (suc i) rest)
  effects-operands i (value_arg n v ∷ rest) = rw (effects-operands (suc i) rest)
  effects-operands i (handle_arg v ∷ rest) = rw (effects-operands (suc i) rest)
  effects-operands i (text_arg cs ∷ rest) = rw (effects-operands (suc i) rest)
  effects-operands i (pointer_arg v ∷ rest) = rw (effects-operands (suc i) rest)

  -- An outcome that a reply to the call can carry: the code is a CUresult, the results fit the
  -- guest's memory, and all operands together fit the reply.
  pub record IsReturned (args : List CallArg) : Type 0 where
    pub coded : o.code < 256 ^ result_size
    pub fitting : FitsFrom 0 args
    pub room : result_size + footprints (operands o 0 (givens args)) ≤ msize

  -- `reply` carries the outcome, whichever client receives it.
  pub record Carries (args : List CallArg) (reply : Response) : Type 0 where
    pub results :
        (end : ℕ) × (get_all (call_targets args) (record reply { at = result_size })
          ≡ some (sent_effects o 0 args, record reply { at = end }))
    pub code : curesult reply ≡ some o.code
    pub sized : length reply.mdata ≡ msize

  -- The host's reply is written without a fault, and it carries the outcome.
  pub reply_args-Carries :
      (args : List CallArg) (r : Response)
      → length r.mdata ≡ msize
      → IsReturned args
      → (reply : Response) × (reply_args o (givens args) (reset r) ≡ some reply)
        × Carries args reply
  unfolding reply_args set_curesult reset
  reply_args-Carries args r size h =
      let bytes : List ℕ = le_bytes result_size o.code in
      let four : length bytes ≡ result_size = length-le_bytes result_size o.code in
      let written = write_at-fits r.mdata bytes 0 (omega arith) in
      let r₁ : Response = record { mdata = splice r.mdata 0 bytes; at = result_size } in
      let set : set_curesult o.code (reset r) ≡ some r₁ = rw written in
      let size₁ : length r₁.mdata ≡ msize = length-write_at r.mdata bytes 0 written ∙ size in
      let ops = operands o 0 (givens args) in
      let (reply, sent, at, size₂) = put_all-Moves ops r₁ (omega (arith, h.room)) in
      let back =
        get_all-put_all-from ops (call_targets args) r₁ reply sent size₁
          (operands-AnswersAll 0 args h.fitting) in
      (
        reply,
        rw (written, sent),
        record {
          results = (reply.at, back ∙ ap (λ es. some (es, reply)) (effects-operands 0 args));
          code = curesult-put_all ops o.code r r₁ reply h.coded set sent;
          sized = size₂ ∙ size₁;
        },
      )

  -- A client that waits for the reply gets the code and its results, and is ready for the next call.
  pub wait_recv-Carries :
      (args : List CallArg) (reply : Response) (c : CudaClient)
      → IsClient c
      → Carries args reply
      → (c' : CudaClient) × (wait_recv (call_targets args) reply.mdata c
          ≡ some (o.code, sent_effects o 0 args, c'))
        × IsClient c'
        × (c'.response.mdata ≡ reply.mdata)
  unfolding wait_recv reset
  wait_recv-Carries args reply c h carries =
      let (end, results) = carries.results in
      let code : curesult (reset reply) ≡ some o.code = unfold curesult in carries.code in
      (
        record c { response = reset reply },
        rw (h.at_start, results, code),
        record { serial = h.serial; empty = h.empty; sized = carries.sized; at_start = refl },
        refl,
      )
