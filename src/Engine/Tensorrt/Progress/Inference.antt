-- ===== src/Engine/Tensorrt/Progress/Inference.antt =====
-- An inference where no call fails.
use market_data_ingress.Base.{
  ℕ, ◌*◌, ◌/◌, ◌^◌, ◌≤◌, ◌<◌, ◌≡◌, refl, sym, true, false, not, none, some, List, [], ◌∷◌, Bytes,
  ◌==◌, ==_iff, ltb, take, arith,
}
use market_data_ingress.Base.Attempts.{◌>>=◌}
use market_data_ingress.Engine.Tensorrt.Volume.{bytes_of}
use market_data_ingress.Engine.Tensorrt.Calls
use market_data_ingress.Engine.Tensorrt.Session.{Member, S, calls}
use market_data_ingress.Engine.Tensorrt.Loading.{is_empty, load}
use market_data_ingress.Engine.Tensorrt.Inference.{
  copied, inference_calls, keep_latency, member, execute, run_inference, infer_into,
}
use market_data_ingress.Engine.Tensorrt.Progress.{
  Answering, Serves, AllSet, HasModel, call-answers, load_succeeds,
}

module _ {F D : Type 0} (platform : Calls.Platform F D) (answering : Answering platform) where
  calls-answers :
      (cs : List Calls.Call) (s : S platform)
      → (t : S platform) × (calls platform cs s ≡ (t, some tt))
  unfolding calls
  calls-answers [] s = (s, refl)
  calls-answers (c ∷ cs) s =
      let (a, w, e) = call-answers platform answering c s in
      let (t, e2) = calls-answers cs (record s { world = w; log = (c, some a) ∷ s.log }) in
      (t, rw (calls, e) e2)

  execute-answers :
      (context stream input_device output_device input_host output_host : ℕ) (s : S platform)
      → (t : S platform) × (execute platform context stream input_device output_device input_host
            output_host s
          ≡ (t, some tt))
  unfolding execute
  execute-answers context stream input_device output_device input_host output_host s =
      let (t, e) =
        calls-answers
          (inference_calls platform context stream input_device output_device input_host output_host
            s)
          s in
      (keep_latency platform t, rw (execute, e) refl)

  run_inference-answers :
      (from to : List F) (input_elements capacity : ℕ)
      (context stream input_device output_device input_host output_host : ℕ) (s : S platform)
      → s.pointers Member.context ≡ some context
      → s.pointers Member.stream ≡ some stream
      → s.pointers Member.input_device ≡ some input_device
      → s.pointers Member.output_device ≡ some output_device
      → s.pointers Member.input_host ≡ some input_host
      → s.pointers Member.output_host ≡ some output_host
      → not (input_elements == 0) ≡ true
      → (bytes_of input_elements == s.input_bytes) ≡ true
      → not (ltb capacity (s.output_bytes / 4)) ≡ true
      → (result : List F × ℕ) × (t : S platform) × (run_inference platform
            (some from)
            input_elements
            (some to)
            capacity
            s
          ≡ (t, some result))
  unfolding run_inference member
  run_inference-answers from to input_elements capacity context stream input_device output_device
        input_host output_host s e0 e1 e2 e3 e4 e5 some_input size room =
      let written : S platform = record s {
        world = platform.write_host input_host (take (s.input_bytes / 4) from) s.world;
      } in
      let (t, e) =
        execute-answers context stream input_device output_device input_host output_host written in
      let elements = s.output_bytes / 4 in
      (
        (copied elements (platform.read_host output_host elements t.world) to, elements),
        t,
        rw (run_inference, ◌>>=◌, member, e0)
            (rw (e1)
              (rw e2 (rw e3 (rw e4 (rw e5 (rw some_input (rw size (rw room (rw e refl))))))))),
      )

  infer_into-succeeds :
      (from to : List F) (input_elements output_elements capacity : ℕ) (s : S platform)
      → AllSet platform input_elements output_elements s
      → 1 ≤ input_elements
      → bytes_of output_elements / 4 ≤ capacity
      → (infer_into platform (some from) input_elements (some to) capacity s).1.succeeded ≡ true
  unfolding infer_into
  infer_into-succeeds from to input_elements output_elements capacity s
        (
          (
            context, stream, input_device, output_device, input_host, output_host, e0, e1, e2, e3,
            e4, e5,
          ),
          size,
          output_size,
        )
        one room =
      let some_input : not (input_elements == 0) ≡ true = ground arith in
      let exact : (bytes_of input_elements == s.input_bytes) ≡ true =
        (==_iff (bytes_of input_elements) s.input_bytes).1 (sym size) in
      let enough : not (ltb capacity (s.output_bytes / 4)) ≡ true = rw output_size (ground arith) in
      let (result, t, e) =
        run_inference-answers from to input_elements capacity context stream input_device
          output_device input_host output_host (record s { last_device_latency_us = none }) e0 e1 e2
          e3 e4 e5 some_input exact enough in
      rw (infer_into, e) refl

module _ {F D : Type 0} (platform : Calls.Platform F D) where
  -- If every call answers, every engine has an FP32 input and output of these sizes, both named, and
  -- the file of the model can be read and is not empty, then `load` succeeds, from any state and in
  -- either format. So does the inference after it that is given the input's size and room for the
  -- output, if there is an input element and the bytes of the output fit in 64 bits.
  pub load_then_infer :
      (input output : Bytes) (input_elements output_elements : ℕ) (path : Bytes) (from to : List F)
      (capacity : ℕ) (s : S platform)
      → Answering platform
      → Serves platform input output input_elements output_elements
      → is_empty input ≡ false
      → is_empty output ≡ false
      → HasModel platform path
      → 1 ≤ input_elements
      → output_elements * 4 < 2 ^ 64
      → output_elements ≤ capacity
      → let loaded = load platform path s in
        (loaded.1 ≡ true)
        × ((infer_into platform (some from) input_elements (some to) capacity loaded.0).1.succeeded
            ≡ true)
  unfolding bytes_of
  load_then_infer input output input_elements output_elements path from to capacity s answering
        serves named output_named there one fits room =
      let (succeeded, set) =
        load_succeeds platform answering input output input_elements output_elements serves named
          output_named path s there in
      (
        succeeded,
        infer_into-succeeds platform answering from to input_elements output_elements capacity
            (load platform path s).0 set one (omega arith),
      )
