-- ===== src/Client/Fingerprint/Tests.antt =====
-- Witness of the safety number, under a hash that copies its input.
use chat_terminal.Common.{◌≡◌, [], ◌∷◌, ◌++◌}
use chat_terminal.Client.Fingerprint.{bytes_lt, hex_value, safety_number}
use chat_terminal.Client.Fingerprint.Symmetry.{four, safety_number_comm}

-- The hash's digits are 3, a and 5, that is 933.
safety_number_comm_example :
    let number = safety_number (λ b. b) (53 ∷ []) (51 ∷ 97 ∷ []) in
    (number ≡ safety_number (λ b. b) (51 ∷ 97 ∷ []) (53 ∷ []))
    × (number
        ≡ four 933 16
          ++ b' ' ∷ four 933 12
          ++ b' ' ∷ four 933 8
          ++ b' ' ∷ four 933 4
          ++ b' ' ∷ four 933 0)
unfolding hex_value bytes_lt
safety_number_comm_example = safety_number_comm (λ b. b) (53 ∷ []) (51 ∷ 97 ∷ [])
