-- ===== src/Script/Steps.antt =====
-- A task, step by step: it throws or goes on, and what it has sent stays sent.
use solana_proxy.Prelude.{
  ◌≡◌, refl, sym, ap, Option, none, some, Bool, true, false, Result, ok, throw, Error, or_throw,
  require,
}

abbrev pub Step : Type 0 → Type 0 → Type 0
Step World A = World → Result A × World

abbrev pub after : {World A B : Type 0} → Result A × World → (A → Step World B) → Result B × World
after (throw e, w) rest = (throw e, w)
after (ok a, w) rest = rest a w

infixl 5 ◌>>=◌ ◌>>◌
abbrev pub ◌>>=◌ : {World A B : Type 0} → Step World A → (A → Step World B) → Step World B
◌>>=◌ step rest w = after (step w) rest

abbrev pub ◌>>◌ : {World B : Type 0} → Step World (Unit {0}) → Step World B → Step World B
◌>>◌ step next w = after (step w) (λ _. next)

-- A question about the state.
abbrev pub query : {World A : Type 0} → (World → Result A) → Step World A
query f w = (f w, w)

-- A result that asks nothing.
abbrev pub lift : {World A : Type 0} → Result A → Step World A
lift result = query (λ _. result)

abbrev pub answered : {World A : Type 0} → Error → Option A × World → Result A × World
answered error (answer, w) = (or_throw error answer, w)

abbrev pub confirmed : {World : Type 0} → Error → Bool × World → Result (Unit {0}) × World
confirmed error (done, w) = (require done error, w)

module _ {World : Type 0} where
  after-eq-ok :
      {A B : Type 0} (r : Result A × World) (rest : A → Step World B) {b : B} {last : World}
      → after r rest ≡ (ok b, last)
      → (a : A) × (w' : World) × (r ≡ (ok a, w')) × (rest a w' ≡ (ok b, last))
  after-eq-ok (throw e, w') rest h = cc h
  after-eq-ok (ok a, w') rest h = (a, w', refl, h)

  pub >>=-eq-ok :
      {A B : Type 0} (step : Step World A) (rest : A → Step World B) (w : World) {b : B}
      {last : World}
      → (step >>= rest) w ≡ (ok b, last)
      → (a : A) × (w' : World) × (step w ≡ (ok a, w')) × (rest a w' ≡ (ok b, last))
  >>=-eq-ok step rest w h = after-eq-ok (step w) rest h

  pub query-eq-ok :
      {A : Type 0} (f : World → Result A) (w : World) {a : A} {w' : World}
      → query f w ≡ (ok a, w')
      → (f w ≡ ok a) × (w' ≡ w)
  query-eq-ok f w h = (ap (λ r. r.0) h, sym (ap (λ r. r.1) h))

  -- A question and what follows it: the state stays the one that was asked.
  pub query->>=-eq-ok :
      {A B : Type 0} (f : World → Result A) (rest : A → Step World B) (w : World) {b : B}
      {last : World}
      → (query f >>= rest) w ≡ (ok b, last)
      → (a : A) × (f w ≡ ok a) × (rest a w ≡ (ok b, last))
  query->>=-eq-ok {A = A} f rest w {b} {last} h = asked (f w) refl h
    where
      asked :
          (r : Result A)
          → f w ≡ r
          → after (r, w) rest ≡ (ok b, last)
          → (a : A) × (f w ≡ ok a) × (rest a w ≡ (ok b, last))
      asked (throw e) s h = cc h
      asked (ok a) s h = (a, s, h)

  pub answered-eq-ok :
      {A : Type 0} (error : Error) (call : Option A × World) {a : A} {w : World}
      → answered error call ≡ (ok a, w)
      → call ≡ (some a, w)
  answered-eq-ok error (none, w') h = cc h
  answered-eq-ok error (some a, w') h = cc h

  pub confirmed-eq-ok :
      (error : Error) (call : Bool × World) {u : Unit {0}} {w : World}
      → confirmed error call ≡ (ok u, w)
      → call ≡ (true, w)
  confirmed-eq-ok error (false, w') h = cc h
  confirmed-eq-ok error (true, w') h = cc h

pub or_throw-eq-ok :
    {A : Type 0} (error : Error) (o : Option A) {a : A} → or_throw error o ≡ ok a → o ≡ some a
or_throw-eq-ok error none h = cc h
or_throw-eq-ok error (some a) h = cc h
