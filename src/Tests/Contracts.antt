-- ===== src/Tests/Contracts.antt =====
-- The interfaces of the queue and the store, with Redis as lists of one key.
use remote_runtime_engine.Base.{
  ◌≡◌, refl, sym, none, ok, List, [], ◌∷◌, ◌++◌, reverse, reverse-reverse, reverse-cons, ap, ◌∙◌,
  Text, length,
}
use remote_runtime_engine.Queue.{normalize_job}
use remote_runtime_engine.Queue.Contract
use remote_runtime_engine.Queue.Refinement.{memory_queue, Buffers, memory_queue-IsFifo}
use remote_runtime_engine.Queue.Redis.{RedisLists, Popped, popped, nil_reply}
use remote_runtime_engine.Queue.Redis.Refinement.{ListLaws, Restores, IsFifo, redis_queue-IsFifo}
use remote_runtime_engine.Tests.{whole, sample_job}
use remote_runtime_engine.Tests.Codec.{job_codec, job_codec-Restores}

-- The values from the tail of the list on: what `BRPOP` makes of it.
abbrev pop_oldest : Text → List Text → Popped × List Text
pop_oldest k [] = (nil_reply, [])
pop_oldest k (t ∷ ts) = (popped (k ∷ t ∷ []), reverse ts)

-- A server with one list.
abbrev one_list : RedisLists (List Text)
one_list = record {
  lpush = λ k t s. (none, t ∷ s);
  brpop = λ k s. pop_oldest k (reverse s);
  llen = λ k s. (ok (length s), s);
  close = λ s. s;
}

abbrev contents : List Text → Text → List Text
contents s k = s

pop_oldest-pops :
    (k : Text) (ts r s' : List Text)
    → pop_oldest k ts ≡ (popped r, s')
    → (t : Text) × (r ≡ k ∷ t ∷ []) × (reverse ts ≡ s' ++ t ∷ [])
pop_oldest-pops k [] r s' h = absurd (cc)
pop_oldest-pops k (t ∷ ts) r s' h =
    let same : reverse ts ≡ s' = cc in (t, cc, reverse-cons t ts ∙ ap (λ u. u ++ t ∷ []) same)

pop_oldest-nil :
    (k : Text) (ts s' : List Text) → pop_oldest k ts ≡ (nil_reply, s') → s' ≡ reverse ts
pop_oldest-nil k [] s' h = cc
pop_oldest-nil k (t ∷ ts) s' h = absurd (cc)

one_list_laws : ListLaws one_list contents
one_list_laws = record {
  pushes = λ k t s s' h. cc;
  pops = λ k r s s' h.
      let (t, e, e') = pop_oldest-pops k (reverse s) r s' h in (t, e, sym (reverse-reverse s) ∙ e');
  times_out = λ k s s' h. pop_oldest-nil k (reverse s) s' h ∙ reverse-reverse s;
  measures = λ k n s s' h. (cc, cc);
  closes = λ k s. refl;
}

redis_queue-IsFifo_example : IsFifo one_list job_codec [] contents whole
redis_queue-IsFifo_example = redis_queue-IsFifo one_list job_codec [] contents one_list_laws whole

-- The codec restores every job.
sample_job-Restores : Restores job_codec (normalize_job whole 7 sample_job)
sample_job-Restores = job_codec-Restores (normalize_job whole 7 sample_job)

memory_queue-IsFifo_example : Contract.IsFifo (memory_queue whole) Buffers
memory_queue-IsFifo_example = memory_queue-IsFifo whole
