-- ===== src/Tests/Codec.antt =====
-- A codec to lists of numbers, which stands for JSON in the tests.
use remote_runtime_engine.Base.{
  ℕ, zero, suc, ◌≡◌, refl, ap, subst, append-nil, ok_injective, Bool, true, false, Option, none,
  some, List, [], ◌∷◌, ◌++◌, append_assoc, Text, ℤ, pos, negsuc, length, Result, ok, err,
}
use remote_runtime_engine.Queue.{TestCase, SubmissionJob}
use remote_runtime_engine.Queue.Redis.{JobCodec}
use remote_runtime_engine.Queue.Redis.Refinement.{Restores}

-- A value is written before any rest, and read back from it.
pub record Coder (A : Type 0) : Type 0 where
  pub put : A → Text
  pub get : Text → Option (A × Text)
  pub back : (a : A) (rest : Text) → get (put a ++ rest) ≡ some (a, rest)

abbrev pub number : Coder ℕ
number = record {
  put = λ n. n ∷ [];
  get = λ t. elim t [ [] ↦ none | n ∷ r ↦ some (n, r) ];
  back = λ n rest. refl;
}

abbrev also : {A B : Type 0} → Option (A × Text) → (A → Text → Option B) → Option B
also none f = none
also (some (a, r)) f = f a r

infixr 20 ◌&◌
abbrev pub ◌&◌ : {A B : Type 0} → Coder A → Coder B → Coder (A × B)
a & b = record {
  put = λ p. a.put p.0 ++ b.put p.1;
  get = λ t. also (a.get t) (λ x r. also (b.get r) (λ y r'. some ((x, y), r')));
  back = λ p rest.
      rw
        (append_assoc (a.put p.0) (b.put p.1) rest, a.back p.0 (b.put p.1 ++ rest), b.back p.1 rest)
        refl;
}

abbrev pub through :
    {A B : Type 0} (f : A → B) (g : B → A) → ((b : B) → f (g b) ≡ b) → Coder A → Coder B
through f g same c = record {
  put = λ b. c.put (g b);
  get = λ t. also (c.get t) (λ a r. some (f a, r));
  back = λ b rest. rw (c.back (g b) rest) (ap (λ x. some (x, rest)) (same b));
}

abbrev bool_of : ℕ → Bool
bool_of zero = false
bool_of (suc n) = true

abbrev of_bool : Bool → ℕ
of_bool false = 0
of_bool true = 1

pub bool_back : (b : Bool) → bool_of (of_bool b) ≡ b
bool_back false = refl
bool_back true = refl

abbrev pub flag : Coder Bool
flag = through bool_of of_bool bool_back number

abbrev ℤ_of : ℕ × ℕ → ℤ
ℤ_of (zero, n) = pos n
ℤ_of (suc k, n) = negsuc n

abbrev of_ℤ : ℤ → ℕ × ℕ
of_ℤ (pos n) = (0, n)
of_ℤ (negsuc n) = (1, n)

pub ℤ_back : (z : ℤ) → ℤ_of (of_ℤ z) ≡ z
ℤ_back (pos n) = refl
ℤ_back (negsuc n) = refl

abbrev pub integer : Coder ℤ
integer = through ℤ_of of_ℤ ℤ_back (number & number)

module _ {A : Type 0} (c : Coder A) where
  abbrev put_all : List A → Text
  put_all [] = []
  put_all (x ∷ xs) = c.put x ++ put_all xs

  abbrev get_many : ℕ → Text → Option (List A × Text)
  get_many zero t = some ([], t)
  get_many (suc n) t = also (c.get t) (λ x r. also (get_many n r) (λ xs r'. some (x ∷ xs, r')))

  pub many_back :
      (xs : List A) (rest : Text) → get_many (length xs) (put_all xs ++ rest) ≡ some (xs, rest)
  many_back [] rest = refl
  many_back (x ∷ xs) rest =
      rw
        (append_assoc (c.put x) (put_all xs) rest, c.back x (put_all xs ++ rest), many_back xs rest)
        refl

  abbrev pub many : Coder (List A)
  many = record {
    put = λ xs. length xs ∷ put_all xs;
    get = λ t. elim t [ [] ↦ none | n ∷ r ↦ get_many n r ];
    back = many_back;
  }

abbrev pub text : Coder Text
text = many number

abbrev case_coder : Coder TestCase
case_coder =
    through
      (λ p. record { id = p.0; input = p.1.0; expected_output = p.1.1.0; is_hidden = p.1.1.1 })
      (λ tc. (tc.id, (tc.input, (tc.expected_output, tc.is_hidden)))) (λ tc. refl)
      (text & (text & (text & flag)))

abbrev pub job_coder : Coder (SubmissionJob ℕ)
job_coder =
    through
      (λ p. record {
        submission_id = p.0;
        language = p.1.0;
        code = p.1.1.0;
        time_limit_ms = p.1.1.1.0;
        memory_limit_mb = p.1.1.1.1.0;
        cpu_quota = p.1.1.1.1.1.0;
        pids_limit = p.1.1.1.1.1.1.0;
        max_output_bytes = p.1.1.1.1.1.1.1.0;
        sandbox_type = p.1.1.1.1.1.1.1.1.0;
        test_cases = p.1.1.1.1.1.1.1.1.1.0;
        enqueued_at = p.1.1.1.1.1.1.1.1.1.1;
      })
      (λ j. (
        j.submission_id,
        (
          j.language,
          (
            j.code,
            (
              j.time_limit_ms,
              (
                j.memory_limit_mb,
                (
                  j.cpu_quota,
                  (
                    j.pids_limit,
                    (j.max_output_bytes, (j.sandbox_type, (j.test_cases, j.enqueued_at))),
                  ),
                ),
              ),
            ),
          ),
        ),
      ))
      (λ j. refl)
      (text
        & (text
            & (text
                & (integer
                    & (integer
                        & (number
                            & (integer & (integer & (text & (many case_coder & number))))))))))

-- A text that is read to its end.
abbrev pub whole_text : {A : Type 0} → Option (A × Text) → Result Text A
whole_text (some (a, [])) = ok a
whole_text _ = err []

pub whole_back : {A : Type 0} (c : Coder A) (a : A) → whole_text (c.get (c.put a)) ≡ ok a
whole_back c a = rw (← append-nil (c.put a)) (rw (c.back a []) refl)

abbrev pub job_codec : JobCodec ℕ
job_codec = record {
  marshal = λ j. ok (job_coder.put j);
  unmarshal = λ t. whole_text (job_coder.get t);
}

pub job_codec-Restores : (j : SubmissionJob ℕ) → Restores job_codec j
job_codec-Restores j t e =
    subst (λ u. whole_text (job_coder.get u) ≡ ok j) (ok_injective e) (whole_back job_coder j)
