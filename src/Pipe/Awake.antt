-- ===== src/Pipe/Awake.antt =====
-- Every step keeps the reason for which a writer or a reader sleeps.
use mathlib.Core.Path.{subst}
use xv.Common.{
  returns-injective, sleeps-injective, sym, ◌⊎◌, ℕ, ◌≡◌, refl, ◌∙◌, arith, Bool, true, false, List,
  [], Turn, returns, sleeps, inl, inr,
}
use xv.Common.Int.{ℤ}
use xv.Pipe.{pipe_size, Pipe, put, ReadResult, pipeclose}
use xv.Pipe.Queue.{count, IsValid}
use xv.Pipe.Stream.{Written, done, broken, waits, pipewrite-Written, Read, piperead-Read}
use xv.Pipe.Tasks.{
  Task, outside, ready, asleep, rouse, System, calm, settle, Step, call_write, write_returns,
  write_sleeps, call_read, read_returns, read_sleeps, close_write, close_read,
}

pub woken-put : (p : Pipe) (byte : ℕ) → (put p byte).woken ≡ p.woken
unfolding put
woken-put p byte = refl

-- Whoever sleeps still has the reason for which it went to sleep, and whoever is in a call has its
-- end open.
abbrev pub WriterWaits : Pipe → Task (ℕ × List ℕ) → Type 0
WriterWaits p outside = Unit
WriterWaits p (ready _) = p.writeopen ≡ true
WriterWaits p (asleep _) = (p.writeopen ≡ true) × (count p ≡ pipe_size) × (p.readopen ≡ true)

abbrev pub ReaderWaits : Pipe → Task ℕ → Type 0
ReaderWaits p outside = Unit
ReaderWaits p (ready _) = p.readopen ≡ true
ReaderWaits p (asleep _) = (p.readopen ≡ true) × (count p ≡ 0) × (p.writeopen ≡ true)

pub record IsAwake (s : System) : Type 0 where
  pub valid : IsValid s.pipe
  pub quiet : s.pipe.woken ≡ []
  pub writer : WriterWaits s.pipe s.writer
  pub reader : ReaderWaits s.pipe s.reader

outside_waits : (p : Pipe) (b : Bool) → WriterWaits (calm p) (rouse b outside)
outside_waits p true = tt
outside_waits p false = tt

outside_reads : (p : Pipe) (b : Bool) → ReaderWaits (calm p) (rouse b outside)
outside_reads p true = tt
outside_reads p false = tt

-- A woken reader needs its end open, and nothing else.
reader_roused :
    (p p' : Pipe) (r : Task ℕ)
    → p'.readopen ≡ p.readopen
    → ReaderWaits p r
    → ReaderWaits (calm p') (rouse true r)
reader_roused p p' outside e h = tt
reader_roused p p' (ready n) e h = e ∙ h
reader_roused p p' (asleep n) e h = e ∙ h.0

writer_roused :
    (p p' : Pipe) (w : Task (ℕ × List ℕ))
    → p'.writeopen ≡ p.writeopen
    → WriterWaits p w
    → WriterWaits (calm p') (rouse true w)
writer_roused p p' outside e h = tt
writer_roused p p' (ready n) e h = e ∙ h
writer_roused p p' (asleep n) e h = e ∙ h.0

-- A reader that sleeps excludes that a writer finds nobody to read.
reader_unmoved :
    (p p' : Pipe) (r : Task ℕ)
    → (p.readopen ≡ false) ⊎ (false ≡ true)
    → p'.readopen ≡ p.readopen
    → ReaderWaits p r
    → ReaderWaits (calm p') (rouse false r)
reader_unmoved p p' outside why e h = tt
reader_unmoved p p' (ready n) why e h = e ∙ h
reader_unmoved p p' (asleep n) (inl shut) e h = absurd (cc (sym shut ∙ h.0))
reader_unmoved p p' (asleep n) (inr dead) e h = absurd (cc dead)

calm-IsValid : (p : Pipe) → IsValid p → IsValid (calm p)
calm-IsValid p v = omega arith

Written-IsAwake :
    (p p' : Pipe) (r : Task ℕ) (n : ℕ) (left : List ℕ) (result : ℤ)
    {t : Turn (Pipe × List ℕ) (Pipe × ℤ)}
    → p.woken ≡ []
    → ReaderWaits p r
    → Written n false p left t
    → t ≡ returns (p', result)
    → IsAwake (settle p' outside r)
Written-IsAwake p p' r n left result q wr (done p₁ s) e =
    subst (λ (x : Pipe × ℤ). IsAwake (settle x.0 outside r)) (returns-injective _ _ e)
      (record {
        valid = calm-IsValid p₁ s.valid;
        quiet = refl;
        writer = outside_waits p₁ _;
        reader = reader_roused p p₁ r s.ends.0 wr;
      })
Written-IsAwake p p' r n left result q wr (broken p₁ sent more e' s full why) e =
    subst (λ (x : Pipe × ℤ). IsAwake (settle x.0 outside r)) (returns-injective _ _ e)
      (record {
        valid = calm-IsValid p₁ s.valid;
        quiet = refl;
        writer = outside_waits p₁ _;
        reader = rw (s.woken ∙ q) (reader_unmoved p p₁ r why s.ends.0 wr);
      })
Written-IsAwake p p' r n left result q wr (waits p₁ sent more e' s full why) e = absurd (cc e)

Written-sleeps-IsAwake :
    (p p' : Pipe) (r : Task ℕ) (n : ℕ) (left left' : List ℕ) {t : Turn (Pipe × List ℕ) (Pipe × ℤ)}
    → p.woken ≡ []
    → p.writeopen ≡ true
    → ReaderWaits p r
    → Written n false p left t
    → t ≡ sleeps (p', left')
    → IsAwake (settle p' (asleep (n, left')) r)
Written-sleeps-IsAwake p p' r n left left' q o wr (done p₁ s) e = absurd (cc e)
Written-sleeps-IsAwake p p' r n left left' q o wr (broken p₁ sent more e' s full why) e =
    absurd (cc e)
Written-sleeps-IsAwake p p' r n left left' q o wr (waits p₁ sent more e' s full alive) e =
    subst (λ (x : Pipe × List ℕ). IsAwake (settle x.0 (asleep (n, x.1)) r)) (sleeps-injective _ _ e)
      (record {
        valid = calm-IsValid p₁ s.valid;
        quiet = refl;
        writer = rw (s.woken ∙ q) (s.ends.1 ∙ o, full, s.ends.0 ∙ alive.0);
        reader = reader_roused p p₁ r s.ends.0 wr;
      })

Read-IsAwake :
    (p p' : Pipe) (w : Task (ℕ × List ℕ)) (n : ℕ) (killed : Bool) (result : ReadResult)
    {t : Turn Pipe (Pipe × ReadResult)}
    → p.woken ≡ []
    → IsValid p
    → WriterWaits p w
    → Read n killed p t
    → t ≡ returns (p', result)
    → IsAwake (settle p' w outside)
Read-IsAwake p p' w n killed result q v ww (Read.waits a b c) e = absurd (cc e)
Read-IsAwake p p' w n killed result q v ww (Read.broken a b c) e =
    subst (λ (x : Pipe × ReadResult). IsAwake (settle x.0 w outside)) (returns-injective _ _ e)
      (record {
        valid = calm-IsValid p v;
        quiet = refl;
        writer = rw q ww;
        reader = outside_reads p _;
      })
Read-IsAwake p p' w n killed result q v ww (Read.done p₁ got g c) e =
    subst (λ (x : Pipe × ReadResult). IsAwake (settle x.0 w outside)) (returns-injective _ _ e)
      (record {
        valid = calm-IsValid p₁ g.valid;
        quiet = refl;
        writer = writer_roused p p₁ w g.ends.1 ww;
        reader = outside_reads p₁ _;
      })

Read-sleeps-IsAwake :
    (p p' : Pipe) (w : Task (ℕ × List ℕ)) (n : ℕ) (killed : Bool)
    {t : Turn Pipe (Pipe × ReadResult)}
    → p.woken ≡ []
    → IsValid p
    → p.readopen ≡ true
    → WriterWaits p w
    → Read n killed p t
    → t ≡ sleeps p'
    → IsAwake (settle p' w (asleep n))
Read-sleeps-IsAwake p p' w n killed q v o ww (Read.waits a b c) e =
    subst (λ (x : Pipe). IsAwake (settle x w (asleep n))) (sleeps-injective _ _ e)
      (record { valid = calm-IsValid p v; quiet = refl; writer = rw q ww; reader = rw q (o, a, b) })
Read-sleeps-IsAwake p p' w n killed q v o ww (Read.broken a b c) e = absurd (cc e)
Read-sleeps-IsAwake p p' w n killed q v o ww (Read.done p₁ got g c) e = absurd (cc e)

close_write-IsAwake :
    (p : Pipe) (r : Task ℕ)
    → p.woken ≡ []
    → IsValid p
    → ReaderWaits p r
    → IsAwake (settle (pipeclose p true).0 outside r)
unfolding pipeclose
close_write-IsAwake p r q v rr = record {
  valid = calm-IsValid p' (omega arith);
  quiet = refl;
  writer = outside_waits p' _;
  reader = reader_roused p p' r refl rr;
}
  where
    p' : Pipe
    p' = record p { writeopen = false }

close_read-IsAwake :
    (p : Pipe) (w : Task (ℕ × List ℕ))
    → p.woken ≡ []
    → IsValid p
    → WriterWaits p w
    → IsAwake (settle (pipeclose p false).0 w outside)
unfolding pipeclose
close_read-IsAwake p w q v ww = record {
  valid = calm-IsValid p' (omega arith);
  quiet = refl;
  writer = writer_roused p p' w refl ww;
  reader = outside_reads p' _;
}
  where
    p' : Pipe
    p' = record p { readopen = false }

pub Step-IsAwake : {s t : System} → Step s t → IsAwake s → IsAwake t
Step-IsAwake (call_write p r bytes o) a = record {
  valid = a.valid;
  quiet = a.quiet;
  writer = o;
  reader = a.reader;
}
Step-IsAwake (write_returns p p' r n left result e) a =
    Written-IsAwake p p' r n left result a.quiet a.reader (pipewrite-Written n false p left a.valid)
      e
Step-IsAwake (write_sleeps p p' r n left left' e) a =
    Written-sleeps-IsAwake p p' r n left left' a.quiet a.writer a.reader
      (pipewrite-Written n false p left a.valid) e
Step-IsAwake (call_read p w n o) a = record {
  valid = a.valid;
  quiet = a.quiet;
  writer = a.writer;
  reader = o;
}
Step-IsAwake (read_returns p p' w n killed result e) a =
    Read-IsAwake p p' w n killed result a.quiet a.valid a.writer (piperead-Read n killed p a.valid)
      e
Step-IsAwake (read_sleeps p p' w n killed e) a =
    Read-sleeps-IsAwake p p' w n killed a.quiet a.valid a.reader a.writer
      (piperead-Read n killed p a.valid) e
Step-IsAwake (close_write p r) a = close_write-IsAwake p r a.quiet a.valid a.reader
Step-IsAwake (close_read p w) a = close_read-IsAwake p w a.quiet a.valid a.writer
