-- ===== src/Parser/Ends.antt =====
-- How the methods of event_parser_t (src/server/event/event_parser.h) end: a property of the parser
-- that each method keeps, whether it returns true or false, and of what it finds. A method that ends
-- so does not run out of fuel.
use smarty.Base.{Bool, true, false, Option, none, some, if◌then◌else◌}
use smarty.Creation.Built.{IfSome}
use smarty.Parser.State.{
  return, reject, crash, Parser, Outcome, crashed, out_of_fuel, rejected, parsed, M, ◌>>=◌,
  check_return, lift, get, put,
}

abbrev pub Ends {ℓ} : {A : Type ℓ} → (Parser → Type 0) → (A → Type 0) → Outcome A → Type 0
Ends Q R crashed = Unit {0}
Ends Q R out_of_fuel = ⊥
Ends Q R (rejected p) = Q p
Ends Q R (parsed a p) = Q p × R a

-- Of what a method finds nothing is said.
abbrev pub Any {ℓ} : {A : Type ℓ} → A → Type 0
Any a = Unit {0}

-- From a parser with the property.
pub record Keeps {ℓ} {A : Type ℓ} (Q : Parser → Type 0) (R : A → Type 0) (m : M A) : Type ℓ where
  pub run : (p : Parser) → Q p → Ends Q R (m p)

module _ {Q : Parser → Type 0} where
  ends_bind {ℓ κ} :
      {A : Type ℓ} {B : Type κ} (R : A → Type 0) (S : B → Type 0) (o : Outcome A) (f : A → M B)
      → Ends Q R o
      → ((a : A) → R a → Keeps Q S (f a))
      → Ends Q S (elim o [
        | crashed ↦ crashed
        | out_of_fuel ↦ out_of_fuel
        | rejected p ↦ rejected p
        | parsed a p ↦ f a p
      ])
  ends_bind R S crashed f e k = tt
  ends_bind R S out_of_fuel f e k = absurd e
  ends_bind R S (rejected p) f e k = e
  ends_bind R S (parsed a p) f e k = (k a e.1).run p e.0

  pub bind-Keeps {ℓ κ} :
      {A : Type ℓ} {B : Type κ} {R : A → Type 0} {S : B → Type 0} {m : M A} {f : A → M B}
      → Keeps Q R m
      → ((a : A) → R a → Keeps Q S (f a))
      → Keeps Q S (m >>= f)
  unfolding ◌>>=◌
  bind-Keeps {R} {S} {m} {f} h k = record { run = λ p q. ends_bind R S (m p) f (h.run p q) k }

  pub get-Keeps : Keeps Q Q get
  get-Keeps = record { run = λ p q. (q, q) }

  pub put-Keeps : (p' : Parser) → Q p' → Keeps Q Any (put p')
  put-Keeps p' q' = record { run = λ p q. (q', tt) }

  pub return-Keeps {ℓ} : {A : Type ℓ} {R : A → Type 0} (a : A) → R a → Keeps Q R (return a)
  return-Keeps a r = record { run = λ p q. (q, r) }

  pub check-Keeps : (b : Bool) → Keeps Q Any (check_return b)
  check-Keeps true = record { run = λ p q. q }
  check-Keeps false = record { run = λ p q. (q, tt) }

  pub lift-Keeps {ℓ} :
      {A : Type ℓ} {R : A → Type 0} (o : Option A) → IfSome R o → Keeps Q R (lift o)
  lift-Keeps none h = record { run = λ p q. tt }
  lift-Keeps (some a) h = record { run = λ p q. (q, h) }

  -- What is taken from the configuration, of which nothing is known.
  pub take-Keeps {ℓ} : {A : Type ℓ} (o : Option A) → Keeps Q Any (lift o)
  take-Keeps none = record { run = λ p q. tt }
  take-Keeps (some a) = record { run = λ p q. (q, tt) }

  pub reject-Keeps {ℓ} : {A : Type ℓ} {R : A → Type 0} → Keeps Q R (reject {A = A})
  reject-Keeps = record { run = λ p q. q }

  pub crash-Keeps {ℓ} : {A : Type ℓ} {R : A → Type 0} → Keeps Q R (crash {A = A})
  crash-Keeps = record { run = λ p q. tt }

  pub if_Keeps {ℓ} :
      {A : Type ℓ} {R : A → Type 0} {m k : M A} (b : Bool)
      → Keeps Q R m
      → Keeps Q R k
      → Keeps Q R (if b then m else k)
  if_Keeps true h l = h
  if_Keeps false h l = l

module _ {Q Q' : Parser → Type 0} (weaken : (p : Parser) → Q p → Q' p) where
  pub ends_weaken {ℓ} : {A : Type ℓ} (R : A → Type 0) (o : Outcome A) → Ends Q R o → Ends Q' R o
  ends_weaken R crashed e = tt
  ends_weaken R out_of_fuel e = absurd e
  ends_weaken R (rejected p) e = weaken p e
  ends_weaken R (parsed a p) e = (weaken p e.0, e.1)

  -- A method that ends with one property, and then one that keeps a weaker one.
  pub bind_ends {ℓ κ} :
      {A : Type ℓ} {B : Type κ} (R : A → Type 0) (S : B → Type 0) (m : M A) (f : A → M B)
      (p : Parser)
      → Ends Q R (m p)
      → ((a : A) → R a → Keeps Q' S (f a))
      → Ends Q' S ((m >>= f) p)
  unfolding ◌>>=◌
  bind_ends R S m f p e k = ends_bind R S (m p) f (ends_weaken R (m p) e) k
