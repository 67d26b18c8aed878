-- ===== src/Log/Lines.antt =====
-- platform/app_log.c: the lines of the log.
use nova_desktop.Base.{
  ℕ, zero, suc, ◌-◌, Bool, true, false, ◌||◌, List, [], ◌∷◌, ◌++◌, Option, ltb, ◌==◌, if◌then◌else◌,
  length, take, replicate, All, ◌≡◌, refl, arith,
}
use nova_desktop.Text.{codes}
use nova_desktop.Decimal.{to_decimal, IsDigits, to_decimal-IsDigits}
use nova_desktop.Log.{
  Bytes, NovaLogLevel, Surroundings, info, warn, error, severity, single_line, padded, record_of,
  or_text, joined, pieces,
}

-- No byte of a control character.
unfoldable pub is_one_line : Bytes → Bool
is_one_line [] = true
is_one_line (b ∷ bs) = if ltb b 32 || b == 127 then false else is_one_line bs

is_one_line-++ :
    (xs ys : Bytes) → is_one_line xs ≡ true → is_one_line ys ≡ true → is_one_line (xs ++ ys) ≡ true
unfolding is_one_line
is_one_line-++ [] ys h k = k
is_one_line-++ (x ∷ xs) ys h k =
    let rest = is_one_line-++ xs ys (ground arith) k in ground (arith, rest)

single_line-one : (bs : Bytes) → is_one_line (single_line bs) ≡ true
unfolding is_one_line single_line
single_line-one [] = refl
single_line-one (b ∷ bs) = let rest = single_line-one bs in ground (arith, rest)

digits-one : (bs : Bytes) → IsDigits bs → is_one_line bs ≡ true
unfolding is_one_line
digits-one [] h = refl
digits-one (b ∷ bs) h = let rest = digits-one bs h.1 in ground (arith, rest, h.0)

number-one : (n : ℕ) → is_one_line (to_decimal n) ≡ true
number-one n = digits-one (to_decimal n) (to_decimal-IsDigits n)

zeros-one : (n : ℕ) → is_one_line (replicate n b'0') ≡ true
unfolding is_one_line
zeros-one zero = refl
zeros-one (suc n) = zeros-one n

padded-one : (width n : ℕ) → is_one_line (padded width n) ≡ true
unfolding padded
padded-one width n =
    is_one_line-++ (replicate (width - length (to_decimal n)) b'0') (to_decimal n)
      (zeros-one (width - length (to_decimal n))) (number-one n)

joined-one :
    (pieces : List Bytes)
    → All (λ piece. is_one_line piece ≡ true) pieces
    → is_one_line (joined pieces) ≡ true
unfolding joined is_one_line
joined-one [] all = refl
joined-one (piece ∷ pieces) all =
    is_one_line-++ piece (joined pieces) all.0 (joined-one pieces all.1)

severity-one : (level : NovaLogLevel) → is_one_line (severity level) ≡ true
unfolding is_one_line
severity-one info = refl
severity-one warn = refl
severity-one error = refl

-- A line of the log has no control character before its end, whatever the message, the component and the event are: no
-- message can forge a line.
pub record_of-is_one_line :
    (now : Surroundings) (level : NovaLogLevel) (component event : Option Bytes) (utf : Bytes)
    → is_one_line (record_of now level component event utf) ≡ true
unfolding record_of is_one_line
record_of-is_one_line now level component event utf =
    joined-one (pieces now level component event utf) (
      padded-one 4 now.year,
      (
        refl,
        (
          padded-one 2 now.month,
          (
            refl,
            (
              padded-one 2 now.day,
              (
                refl,
                (
                  padded-one 2 now.hour,
                  (
                    refl,
                    (
                      padded-one 2 now.minute,
                      (
                        refl,
                        (
                          padded-one 2 now.second,
                          (
                            refl,
                            (
                              padded-one 3 now.milliseconds,
                              (
                                refl,
                                (
                                  refl,
                                  (
                                    number-one now.process,
                                    (
                                      refl,
                                      (
                                        number-one now.thread,
                                        (
                                          refl,
                                          (
                                            severity-one level,
                                            (
                                              refl,
                                              (
                                                single_line-one
                                                    (take 47 (or_text (codes "app") component)),
                                                (
                                                  refl,
                                                  (
                                                    single_line-one
                                                        (take 63 (or_text (codes "event") event)),
                                                    (refl, (single_line-one utf, tt)),
                                                  ),
                                                ),
                                              ),
                                            ),
                                          ),
                                        ),
                                      ),
                                    ),
                                  ),
                                ),
                              ),
                            ),
                          ),
                        ),
                      ),
                    ),
                  ),
                ),
              ),
            ),
          ),
        ),
      ),
    )
