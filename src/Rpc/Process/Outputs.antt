-- ===== src/Rpc/Process/Outputs.antt =====
-- The answer of an RPC request whose method gives a reader, the output of a program
-- (rupicolarpc/rupicolarpc.go).
use rupicola_go.Base.{
  ℕ, ◌+◌, ◌-◌, ◌≤◌, ◌<◌, Bytes, List, [], ◌∷◌, ◌++◌, take, drop, take-append-drop, length,
  length-append, flatten, flatten-append, true, Option, none, some, ◌≡◌, refl, sym, ap, ◌∙◌, arith,
}
use rupicola_go.Base.Int.{max_int64}
use rupicola_go.Rpc.Value.{Any, text, Reader, Call, set_result, reader, rpc_method}
use rupicola_go.Rpc.Errors.{new_result}
use rupicola_go.Rpc.Limit.{Outcome, ◌or_return◌}
use rupicola_go.Rpc.Base.{Env}
use rupicola_go.Rpc.Plain
use rupicola_go.Rpc.Plain.{Plain}
use rupicola_go.Rpc.Plain.Answers.{close_written}
use rupicola_go.Rpc.Plain.Results.{Holds, Holds-same, copy_chunks-Holds}
use rupicola_go.Rpc.Responser
use rupicola_go.Rpc.Responser.{Responser, plain, transport, copy_chunks, copy_reader}
use rupicola_go.Rpc.Registry.{MethodDef, Processor, find_method}
use rupicola_go.Rpc.Decode.{Body, read_from, is_valid}
use rupicola_go.Rpc.Process.{
  Live, in_time, copy_flushed, forced, process_context, run_calls, call, set_response_result,
}
use rupicola_go.Rpc.Process.Answers.{served}
use rupicola_go.Rpc.Process.Results.{allowed, served-called, limited-plain, closed-plain}
use rupicola_go.Rpc.Process.Refusals.{seen}

module _ (E : Env) (keeps : (s : E.Sink) → E.flush s ≡ s) (out : E.Sink) (id : Option Any) where
  copy_reader-Holds :
      (r : Reader) (room : ℕ) (held : Bytes) (b : Plain E.Sink)
      → Holds out id room held b
      → length (flatten r.chunks) ≤ room
      → (b' : Plain E.Sink) × (copy_reader E r (plain b) ≡ (r.fault, plain b'))
        × Holds out id (room - length (flatten r.chunks)) (held ++ flatten r.chunks) b'
  unfolding copy_reader
  copy_reader-Holds r room held b h fits =
      let (b', e, h') = copy_chunks-Holds E out id r.chunks room held b h fits in
      (b', ap (λ (o : Outcome (Responser E)). o or_return λ s. (r.fault, s)) e, h')

  flush-Holds :
      (room : ℕ) (held : Bytes) (b : Plain E.Sink)
      → Holds out id room held b
      → Holds out id room held (Plain.flush E b)
  unfolding Plain.flush
  flush-Holds room held b h = ground (arith, keeps b.raw)

  flush-plain : (b : Plain E.Sink) → Responser.flush E (plain b) ≡ plain (Plain.flush E b)
  unfolding Responser.flush
  flush-plain b = refl

  flatten-split :
      (n : ℕ) (cs : List Bytes) → flatten (take n cs) ++ flatten (drop n cs) ≡ flatten cs
  flatten-split n cs =
      sym (flatten-append (take n cs) (drop n cs)) ∙ ap flatten (take-append-drop n cs)

  -- However the copy is cut by a forced flush, what is held in the end is the whole output.
  copy_flushed-Holds :
      (at_chunk : Option ℕ) (r : Reader) (room : ℕ) (b : Plain E.Sink)
      → Holds out id room [] b
      → length (flatten r.chunks) ≤ room
      → (left : ℕ) × (b' : Plain E.Sink) × (copy_flushed {E = E} at_chunk r (plain b)
          ≡ (r.fault, plain b'))
        × Holds out id left (flatten r.chunks) b'
  unfolding copy_flushed
  copy_flushed-Holds none r room b h fits =
      let (b', e, h') = copy_reader-Holds r room [] b h fits in (_, b', e, h')
  copy_flushed-Holds (some n) r room b h fits =
      let whole = flatten-split n r.chunks in
      let lengths = length-append (flatten (take n r.chunks)) (flatten (drop n r.chunks)) in
      let sum : length (flatten r.chunks)
          ≡ length (flatten (take n r.chunks)) + length (flatten (drop n r.chunks)) =
        ap length (sym whole) ∙ lengths in
      let (b1, e1, h1) =
        copy_chunks-Holds E out id (take n r.chunks) room [] b h (omega (arith, sum)) in
      let (b2, e2, h2) =
        copy_reader-Holds (record r { chunks = drop n r.chunks }) _ _ (Plain.flush E b1)
          (flush-Holds _ _ b1 h1) (omega (arith, sum)) in
      (
        _,
        b2,
        ap
              (λ (o : Outcome (Responser E)). o or_return λ s.
                copy_reader E (record r { chunks = drop n r.chunks }) (Responser.flush E s))
              e1
            ∙ ap (copy_reader E (record r { chunks = drop n r.chunks })) (flush-plain b1)
            ∙ e2,
        Holds-same E out id _ _ _ _ b2 refl whole h2,
      )

module _ (E : Env) {U : Type 0} (p : Processor U) (body : Body) (u : U) (flush_at : Option ℕ)
    (out : E.Sink) (i : Any) (m : MethodDef U) (read : (read_from body).0 ≡ none)
    (named : (read_from body).1.id ≡ some i) (valid : is_valid (read_from body).1 ≡ true)
    (found : find_method (read_from body).1.method rpc_method p ≡ some m)
    (bounded : m.limits.max_response ≤ max_int64) (keeps : (s : E.Sink) → E.flush s ≡ s) where
  served-reader :
      (r : Reader)
      → m.invoker (seen body u) ≡ set_result (reader r) ∷ []
      → length (flatten r.chunks) ≤ allowed m.limits.max_response
      → (left : ℕ) × (b : Plain E.Sink) × Holds out (some i) left (flatten r.chunks) b
        × ((served E p body u in_time flush_at out).err ≡ r.fault)
        × ((served E p body u in_time flush_at out).responser ≡ plain b)
  unfolding set_response_result run_calls call
  served-reader r calls fits =
      let (f, e, _, _, run) =
        served-called E p body u flush_at out i m read named valid found bounded in
      let (b, k, h) = limited-plain E p body u flush_at out i m read named valid found bounded in
      let same : served E p body u in_time flush_at out ≡ run_calls (set_result (reader r) ∷ []) f =
        run ∙ ap (λ (cs : List Call). run_calls cs f) calls in
      let (left, b', copied, h') =
        copy_flushed-Holds E keeps out (some i) (forced f.mode f.flush_at) r _ b h fits in
      let whole : copy_flushed {E = E} (forced f.mode f.flush_at) r f.responser
          ≡ (r.fault, plain b') =
        ap (copy_flushed {E = E} (forced f.mode f.flush_at) r) (e ∙ k) ∙ copied in
      (
        left,
        b',
        h',
        ap (λ (g : Live E U). g.err) same ∙ ap (λ (o : Outcome (Responser E)). o.0) whole,
        ap (λ (g : Live E U). g.responser) same ∙ ap (λ (o : Outcome (Responser E)). o.1) whole,
      )

  -- A valid request whose method gives a reader in time, which ends with no error and whose whole
  -- output is within the limit of the method, is answered by the one write of the result object
  -- with its id and with the output as its text, whatever chunks it came in and whenever a flush
  -- was forced. A flush adds nothing, and the object has a text no longer than the largest int64.
  pub rpc_output :
      (r : Reader) (line : Bytes) {o : Outcome (Responser E)}
      → process_context p body rpc_method u in_time flush_at out ≡ some o
      → m.invoker (seen body u) ≡ set_result (reader r) ∷ []
      → r.fault ≡ none
      → length (flatten r.chunks) ≤ allowed m.limits.max_response
      → E.marshal (new_result (text (flatten r.chunks)) (some i)) ≡ some line
      → 0 < length line
      → length line ≤ max_int64
      → transport E o.1 ≡ (E.write line out).sink
  rpc_output r line run calls clean fits marshalled full short =
      let (left, b, h, e, k) = served-reader r calls fits in
      closed-plain E p body u flush_at out i m read named valid found bounded b run (e ∙ clean) k
      ∙ close_written E b out i line h.pending h.unset
          (ap (λ (t : Bytes). E.marshal (new_result (text t) (some i))) h.held ∙ marshalled) full
          short
