-- ===== src/Syscall/Close.antt =====
-- close of a descriptor that dup gave undoes dup.
use mathlib.Core.Path.{subst}
use mathlib.Core.Option.{some-injective}
use xv.Common.{
  ℕ, zero, suc, ◌+◌, ◌-◌, ◌^◌, ◌<◌, ◌≡◌, ◌≢◌, refl, sym, ap, ◌∙◌, arith, true, false, ◌||◌, inl,
  inr, Option, none, some, List, [], ◌∷◌, leb, ltb, length, get_or, get_or-set_self, get_elem?, set,
  Outcome, ok, panic, ok-injective, Bool-cases,
}
use xv.Files.{File, Closers, filedup, drop_ref, fileclose}
use xv.Syscall.Args.{User, argint}
use xv.Syscall.Fd.{nofile, argfd, sys_dup, sys_close}
use xv.Syscall.Dup.{Dup, bad_fd, too_many, unreferenced, dup, sys_dup-Dup}

-- Writing over an entry and back.
set-set_or :
    {A : Type 0} (xs : List A) (k : ℕ) (a b d : A)
    → k < length xs
    → get_or xs k d ≡ b
    → set (set xs k a) k b ≡ xs
set-set_or [] k a b d h e = refl
set-set_or (x ∷ xs) zero a b d h e = ap (λ y. y ∷ xs) (sym e)
set-set_or (x ∷ xs) (suc k) a b d h e = ap (λ ys. x ∷ ys) (set-set_or xs k a b d (omega arith) e)

set-set_at :
    {A : Type 0} (xs : List A) (k : ℕ) (a b : A)
    → get_elem? xs k ≡ some b
    → set (set xs k a) k b ≡ xs
set-set_at [] k a b e = refl
set-set_at (x ∷ xs) zero a b e = ap (λ y. y ∷ xs) (sym (some-injective _ _ e))
set-set_at (x ∷ xs) (suc k) a b e = ap (λ ys. x ∷ ys) (set-set_at xs k a b e)

get_elem?-set :
    {A : Type 0} (xs : List A) (k : ℕ) (a b : A)
    → get_elem? xs k ≡ some b
    → get_elem? (set xs k a) k ≡ some a
get_elem?-set [] k a b e = cc
get_elem?-set (x ∷ xs) zero a b e = refl
get_elem?-set (x ∷ xs) (suc k) a b e = get_elem?-set xs k a b e

-- One reference more and one less, on a file that is open.
drop_ref-filedup :
    (f : ℕ) (files files' : List File) (file : File)
    → get_elem? files f ≡ some file
    → filedup f files ≡ ok files'
    → drop_ref f files' ≡ ok (none, files)
unfolding drop_ref filedup
drop_ref-filedup f files files' file at e = elim (Bool-cases (ltb file.ref 1)) [
  | inl none_left ↦ absurd (panic≢ok files' (sym (rw (at, filedup) (rw none_left refl)) ∙ e))
  | inr some_left ↦
      let one_more = record file { ref = file.ref + 1 } in
      let is : set files f one_more ≡ files' =
        ok-injective _ _ (sym (rw (at, filedup) (rw some_left refl)) ∙ e) in
      let back : (file.ref + 1 - 1) ≡ file.ref = omega arith in
      let first : ltb (file.ref + 1) 1 ≡ false = ground arith in
      let more : ltb 0 (file.ref + 1 - 1) ≡ true = ground (arith, some_left) in
      subst (λ fs. drop_ref f fs ≡ ok (none, files)) is
        (rw (get_elem?-set files f one_more file at, drop_ref)
          (rw first (
            rw more (
              ap (λ fs. ok (none, fs))
                (ap (λ n. set (set files f one_more) f (record file { ref = n })) back
                  ∙ set-set_at files f one_more file at)))))
]
  where
    panic≢ok : (fs : List File) → ◌≢◌ {A = Outcome (List File)} panic (ok fs)
    panic≢ok fs e' = cc

argfd_at :
    (u : User) (k f : ℕ)
    → argint u 0 ≡ some k
    → k < nofile
    → get_or u.ofile k none ≡ some f
    → argfd u 0 ≡ some (k, f)
unfolding argfd
argfd_at u k f arg lt e =
    let ok_fd : (leb (2 ^ 31) k || leb nofile k) ≡ false = ground (arith, lt) in
    rw (arg, argfd) (rw ok_fd (rw (e, argfd) refl))

fileclose-drop_ref :
    {S : Type 0} (closers : Closers S) (f : ℕ) (files files' : List File) (s : S)
    → drop_ref f files ≡ ok (none, files')
    → fileclose closers f files s ≡ ok (files', s)
unfolding fileclose
fileclose-drop_ref closers f files files' s e = rw (e, fileclose) refl

-- For a process with NOFILE entries, and a descriptor of an open file: where dup returns a new
-- descriptor, a later close of it, in any state with the entries and files that dup left, returns 0,
-- brings back the entries and files from before dup, and closes no pipe or inode.
pub close-dup :
    {S : Type 0} (closers : Closers S) (s : S) (u u' u'' : User) (files files' : List File)
    (fd f k : ℕ) (file : File)
    → length u.ofile ≡ nofile
    → argfd u 0 ≡ some (fd, f)
    → get_elem? files f ≡ some file
    → sys_dup u files ≡ ok (some k, u', files')
    → u''.ofile ≡ u'.ofile
    → argint u'' 0 ≡ some k
    → sys_close closers u'' files' s ≡ ok (some 0, record u'' { ofile = u.ofile }, files, s)
unfolding sys_close argfd fileclose
close-dup {S} closers s u u' u'' files files' fd f k file full open_fd at e same arg =
    go (sys_dup-Dup u files) e
  where
    closed :
        (k' : ℕ)
        → k' < length u.ofile
        → get_or u.ofile k' none ≡ none
        → u''.ofile ≡ set u.ofile k' (some f)
        → argint u'' 0 ≡ some k'
        → filedup f files ≡ ok files'
        → sys_close closers u'' files' s ≡ ok (some 0, record u'' { ofile = u.ofile }, files, s)
    closed k' lt free is arg' e' =
        let opened : argfd u'' 0 ≡ some (k', f) =
          argfd_at u'' k' f arg' (omega (arith, lt, full))
            (ap (λ o. get_or o k' none) is ∙ get_or-set_self u.ofile k' (some f) none lt) in
        let dropped =
          fileclose-drop_ref closers f files' files s
            (drop_ref-filedup f files files' file at e') in
        let entries : set u''.ofile k' none ≡ u.ofile =
          ap (λ o. set o k' none) is ∙ set-set_or u.ofile k' (some f) none none lt free in
        rw (opened, sys_close)
          (rw (dropped, fileclose)
            (ap (λ o. ok (some 0, record u'' { ofile = o }, files, s)) entries))

    go :
        {r : Outcome (Option ℕ × User × List File)}
        → Dup u files r
        → r ≡ ok (some k, u', files')
        → sys_close closers u'' files' s ≡ ok (some 0, record u'' { ofile = u.ofile }, files, s)
    go (bad_fd n) e' = cc
    go (too_many fd' f' n all) e' = cc
    go (unreferenced fd' f' n p) e' = cc
    go (dup fd' f' k' fs at' lt free below d) e' =
        let eq = ok-injective _ _ e' in
        let same_k : k' ≡ k = some-injective _ _ (ap (λ r. r.0) eq) in
        let same_f : f' ≡ f = ap (λ r. r.1) (some-injective _ _ (sym at' ∙ open_fd)) in
        closed k' lt free
          (same ∙ sym (ap (λ r. r.1.ofile) eq) ∙ ap (λ g. set u.ofile k' (some g)) same_f)
          (arg ∙ ap some (sym same_k))
          (ap (λ g. filedup g files) (sym same_f) ∙ d ∙ ap ok (ap (λ r. r.2) eq))
