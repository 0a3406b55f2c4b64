-- ===== src/Agent/Network/Yields.antt =====
-- What a program yields when it succeeds, and what it calls whether or not it does.
use observable_cafev.Base.{◌≡◌, ap, Option, none, All}
use observable_cafev.Platform.{Platform}
use observable_cafev.Agent.Network.{
  Call, Log, Outcome, ok, err, Program, Fault, answer, map_err, ◌>>=◌,
}

module _ ⦃P : Platform⦄ where
  module _ {E A : Type 0} where
    abbrev pub Yields : (A → Type 0) → Outcome E A → Type 0
    Yields Q (ok a log) = Q a
    Yields Q (err e log) = Unit

    -- The calls that have been made at the end satisfy `Q`.
    abbrev pub Calls : (Call → Type 0) → Outcome E A → Type 0
    Calls Q (ok a log) = All Q log
    Calls Q (err e log) = All Q log

    -- A program that makes only calls which satisfy `Q`.
    pub record Keeps (Q : Call → Type 0) (p : Program E A) : Type 0 where
      pub kept : (log : Log) → All Q log → Calls Q (p log)

    pub Yields-any : (o : Outcome E A) → Yields (λ a. Unit) o
    Yields-any (ok a log) = tt
    Yields-any (err e log) = tt

  pub answer-none :
      {A : Type 0} (f : Option Fault) (a : A) (log : Log) → f ≡ none → answer f a log ≡ ok a log
  answer-none f a log e = ap (λ g. answer g a log) e

  pub map_err-ok :
      {E F A : Type 0} (f : E → F) (p : Program E A) (log next : Log) (a : A)
      → p log ≡ ok a next
      → map_err f p log ≡ ok a next
  map_err-ok f p log next a e =
      ap (λ o. elim o [ ok b last ↦ ok b last | err g last ↦ err (f g) last ]) e

  module _ {E A B : Type 0} where
    pub bind-ok :
        (p : Program E A) (k : A → Program E B) (log next : Log) (a : A)
        → p log ≡ ok a next
        → (p >>= k) log ≡ k a next
    unfolding ◌>>=◌
    bind-ok p k log next a e = ap (λ o. elim o [ ok b last ↦ k b last | err f last ↦ err f last ]) e

    pub Yields-bind :
        (Q : A → Type 0) (R : B → Type 0) (p : Program E A) (k : A → Program E B) (log : Log)
        → Yields Q (p log)
        → ((a : A) (next : Log) → Q a → Yields R (k a next))
        → Yields R ((p >>= k) log)
    unfolding ◌>>=◌
    Yields-bind Q R p k log h g = split (p log) h
      where
        split :
            (o : Outcome E A)
            → Yields Q o
            → Yields R (elim o [ ok a next ↦ k a next | err e next ↦ err e next ])
        split (ok a next) q = g a next q
        split (err e next) q = tt

    pub Keeps-bind :
        (Q : Call → Type 0) (p : Program E A) (k : A → Program E B)
        → Keeps Q p
        → ((a : A) → Keeps Q (k a))
        → Keeps Q (p >>= k)
    unfolding ◌>>=◌
    Keeps-bind Q p k h g = record { kept = λ log so_far. split (p log) (h.kept log so_far) }
      where
        split :
            (o : Outcome E A)
            → Calls Q o
            → Calls Q (elim o [ ok a next ↦ k a next | err e next ↦ err e next ])
        split (ok a next) q = (g a).kept next q
        split (err e next) q = q
