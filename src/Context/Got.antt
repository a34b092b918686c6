-- ===== src/Context/Got.antt =====
-- What the methods of the shared state give: the object that is shared from then on, or one that is
-- the caller's own.
use mathlib.Core.Logic.{if_pos, if_neg}
use seaturtle.Common.{
  ℕ, suc, ◌≤◌, ◌<◌, ◌≡◌, ◌≢◌, refl, sym, ◌∙◌, subst, ◌⊎◌, inl, inr, Option, none, some, List, [],
  ◌∷◌, ◌++◌, arith, length, length-append, Abort, ok, crash,
}
use seaturtle.Context.{
  Slot, Slot-discrete, Object, Process, M, ◌>>=◌, ◌>>◌, return, lift, new, update, reset, get_or,
  get_or_new,
}
use seaturtle.Context.Extends.{
  Extends, Extends-refl, Extends-trans, Post, Post-bind, Post-mono, Safe,
}

-- The object stands in its slot.
abbrev pub Got : Slot → Process → ℕ → Process → Type 0
Got slot p a p' = Extends p p' × (p'.shared slot ≡ some a) × (p'.settings ≡ p.settings)

-- The object is new, and stands in no slot.
abbrev pub Owns : Process → ℕ → Process → Type 0
Owns p a p' =
    Extends p p'
    × (length p.objects ≤ a)
    × (a < length p'.objects)
    × (((slot : Slot) → p'.shared slot ≡ p.shared slot) × (p'.settings ≡ p.settings))

length-snoc : {A : Type 0} (xs : List A) (x : A) → length (xs ++ x ∷ []) ≡ suc (length xs)
length-snoc xs x = omega (arith, length-append xs (x ∷ []))

-- The process with a new object in a slot.
abbrev pub put : Slot → Object → Process → Process
put slot o p = record p {
  objects = p.objects ++ o ∷ [];
  shared = update slot (length p.objects) p.shared;
}

pub update_at :
    (slot slot' : Slot) (a : ℕ) (shared : Slot → Option ℕ)
    → slot ≡ slot'
    → update slot a shared slot' ≡ some a
update_at slot slot' a shared e = if_pos (Slot-discrete slot slot') e _ _

update_other :
    (slot slot' : Slot) (a : ℕ) (shared : Slot → Option ℕ)
    → slot ≢ slot'
    → update slot a shared slot' ≡ shared slot'
update_other slot slot' a shared e = if_neg (Slot-discrete slot slot') e _ _

put-keeps :
    (slot : Slot) (o : Object) (p p1 : Process)
    → Extends p p1
    → p.shared slot ≡ none
    → (slot' : Slot) (a : ℕ) → p.shared slot' ≡ some a
    → (put slot o p1).shared slot' ≡ some a
put-keeps slot o p p1 h e slot' a e' = elim (Slot-discrete slot slot') [
  | yes same ↦ cc (subst (λ s. p.shared s ≡ none) same e)
  | no other ↦ update_other slot slot' _ p1.shared other ∙ h.keeps slot' a e'
]

put-news :
    (slot : Slot) (o : Object) (p p1 : Process)
    → Extends p p1
    → (slot' : Slot) (a : ℕ) → (put slot o p1).shared slot' ≡ some a
    → (p.shared slot' ≡ some a) ⊎ ((length p.objects ≤ a) × (a < length (put slot o p1).objects))
put-news slot o p p1 h slot' a e = elim (Slot-discrete slot slot') [
  | yes same ↦
      let e' : some (length p1.objects) ≡ some a =
        sym (update_at slot slot' _ p1.shared same) ∙ e in
      let e'' : length p1.objects ≡ a = cc in
      inr (omega (arith, h.grows), omega (arith, length-snoc p1.objects o))
  | no other ↦ earlier (h.news slot' a (sym (update_other slot slot' _ p1.shared other) ∙ e))
]
  where
    earlier :
        (p.shared slot' ≡ some a) ⊎ ((length p.objects ≤ a) × (a < length p1.objects))
        → (p.shared slot' ≡ some a)
          ⊎ ((length p.objects ≤ a) × (a < length (put slot o p1).objects))
    earlier (inl x) = inl x
    earlier (inr (x, y)) = inr (x, omega (arith, length-snoc p1.objects o))

pub put-Extends :
    (slot : Slot) (o : Object) (p p1 : Process)
    → Extends p p1
    → p.shared slot ≡ none
    → Extends p (put slot o p1)
put-Extends slot o p p1 h e = record {
  grows = omega (arith, h.grows, length-snoc p1.objects o);
  keeps = put-keeps slot o p p1 h e;
  news = put-news slot o p p1 h;
}

get_or-Got :
    (slot : Slot) (make : M Object) (p : Process) (held : Option ℕ)
    → Safe make
    → p.shared slot ≡ held
    → Post (Got slot p) (get_or held (do object ← make; a ← new object; reset slot a; return a) p)
unfolding new reset
get_or-Got slot make p (some a) safe e = (Extends-refl p, e, refl)
get_or-Got slot make p none safe e = Post-bind _ (Got slot p) make _ p (safe.run p) (λ o p1 h.
    (put-Extends slot o p p1 h.0 e, update_at slot slot (length p1.objects) p1.shared refl, h.1))

pub get_or_new-Got :
    (slot : Slot) (make : M Object) (p : Process)
    → Safe make
    → Post (Got slot p) (get_or_new slot make p)
unfolding get_or_new
get_or_new-Got slot make p safe = get_or-Got slot make p (p.shared slot) safe refl

pub new-Owns : (o : Object) (p : Process) → Post (Owns p) (new o p)
unfolding new
new-Owns o p = (
  record {
    grows = omega (arith, length-snoc p.objects o);
    keeps = λ slot a e. e;
    news = λ slot a e. inl e;
  },
  omega arith,
  omega (arith, length-snoc p.objects o),
  (λ slot. refl, refl),
)

pub return-Safe : {A : Type 0} (a : A) → Safe (return a)
return-Safe a = record { run = λ p. (Extends-refl p, refl) }

lifted :
    {A : Type 0} (run : Abort A) (p : Process)
    → Post (λ a p'. Extends p p' × (p'.settings ≡ p.settings)) (lift run p)
lifted crash p = tt
lifted (ok a) p = (Extends-refl p, refl)

pub lift-Safe : {A : Type 0} (run : Abort A) → Safe (lift run)
lift-Safe run = record { run = lifted run }

pub bind-Safe :
    {A B : Type 0} {m : M A} {f : A → M B} → Safe m → ((a : A) → Safe (f a)) → Safe (m >>= f)
bind-Safe {m = m} {f = f} h k = record {
  run = λ p. Post-bind _ _ m f p (h.run p) (λ a p1 e.
      Post-mono _ _ (f a p1) ((k a).run p1) (λ b p2 e'. (Extends-trans e.0 e'.0, e'.1 ∙ e.1)));
}
