-- ===== src/Triple/Mailbox.antt =====
-- What src/triple.rs promises: three values, of which the producer has one, the consumer has one,
-- and one is posted between them, with a mark that says whether it is news to the consumer.
use amity.Prelude.{Bool, true, false}

pub record Mailbox {ℓ} (A : Type ℓ) : Type ℓ where
  pub writing : A
  pub posted : A
  pub reading : A
  pub fresh : Bool

module _ {ℓ} {A : Type ℓ} where
  abbrev pub post : Mailbox A → Mailbox A
  post m = record m { writing = m.posted; posted = m.writing; fresh = true }

  abbrev pub take : Mailbox A → Mailbox A
  take m = record m { reading = m.posted; posted = m.reading; fresh = false }
