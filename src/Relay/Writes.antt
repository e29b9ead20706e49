-- ===== src/Relay/Writes.antt =====
-- tools/thread-relay: what `write_all` has written when it returns.
use esp32_s31_linux.Common.{
  ℕ, ◌≡◌, ◌≢◌, refl, ap, ◌∙◌, List, [], ◌∷◌, ◌++◌, Option, none, some, Bool, true, false, ◌==◌,
  if_elim, take, drop, take-append-drop,
}
use mathlib.Core.List.{append_assoc}
use esp32_s31_linux.Relay.{Wrote, failed, wrote, sent_before, write_all}

-- What was written is the first part of the buffer, and all of it exactly if the writes went well.
pub record Prefix (buf : List ℕ) (done : Bool) (sent : List ℕ) : Type 0 where
  pub rest : List ℕ
  pub parts : sent ++ rest ≡ buf
  pub whole : done ≡ true → rest ≡ []
  pub unfinished : done ≡ false → rest ≢ []

abbrev pub WroteOf : List ℕ → Option (Bool × List ℕ) → Type 0
WroteOf buf none = Unit {0}
WroteOf buf (some (done, sent)) = Prefix buf done sent

sent_before-Prefix :
    (xs ys buf : List ℕ) (o : Option (Bool × List ℕ))
    → xs ++ ys ≡ buf
    → WroteOf ys o
    → WroteOf buf (sent_before xs o)
sent_before-Prefix xs ys buf none e p = tt
sent_before-Prefix xs ys buf (some (done, sent)) e p = record {
  rest = p.rest;
  parts = append_assoc xs sent p.rest ∙ ap (λ t. xs ++ t) p.parts ∙ e;
  whole = p.whole;
  unfinished = p.unfinished;
}

pub write_all-Prefix : (calls : List Wrote) (buf : List ℕ) → WroteOf buf (write_all calls buf)
unfolding write_all
write_all-Prefix [] [] = record {
  rest = [];
  parts = refl;
  whole = λ e. refl;
  unfinished = λ e z. cc;
}
write_all-Prefix (c ∷ calls) [] = record {
  rest = [];
  parts = refl;
  whole = λ e. refl;
  unfinished = λ e z. cc;
}
write_all-Prefix [] (b ∷ buf) = tt
write_all-Prefix (Wrote.interrupted ∷ calls) (b ∷ buf) = write_all-Prefix calls (b ∷ buf)
write_all-Prefix (failed ∷ calls) (b ∷ buf) = record {
  rest = b ∷ buf;
  parts = refl;
  whole = λ e. absurd (cc);
  unfinished = λ e z. cc;
}
write_all-Prefix (wrote n ∷ calls) (b ∷ buf) =
    if_elim (WroteOf (b ∷ buf)) (n == 0) _ _
      (record { rest = b ∷ buf; parts = refl; whole = λ e. absurd (cc); unfinished = λ e z. cc })
      (sent_before-Prefix (take n (b ∷ buf)) (drop n (b ∷ buf)) (b ∷ buf) _
        (take-append-drop n (b ∷ buf)) (write_all-Prefix calls (drop n (b ∷ buf))))
