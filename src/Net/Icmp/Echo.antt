-- ===== src/Net/Icmp/Echo.antt =====
-- A request that comes back as a reply is accepted.
use linux95_kernel.Prelude.{
  ℕ, ◌+◌, ◌*◌, ◌/◌, ◌%◌, ◌^◌, ◌≤◌, ◌<◌, ◌≡◌, refl, sym, ap, ◌∙◌, Bool, Option, true, false, some,
  List, ◌∷◌, ◌++◌, ltb, ◌==◌, set, length, take, drop, arith, by_cells,
}
use Prim.{tt}
use linux95_kernel.Net.Bytes.{read_be16, write_be16, write_bytes}
use linux95_kernel.Net.Ethernet.{bytes_of}
use linux95_kernel.Net.Checksum.{checksum, finish, sum_words}
use linux95_kernel.Net.Checksum.Folding.{finish-patch, finish-bound}
use linux95_kernel.Net.Checksum.Sums.{IsBytes, words, sum_words_lem, words-le}
use linux95_kernel.Net.Icmp.{pattern_bytes, fill_request, build_echo_request, accept_echo_reply}

module _ (kind identifier sequence : ℕ) where
  -- A message of the given type with the request's identifier, sequence and data.
  abbrev message : ℕ → List ℕ
  message c =
      kind
      ∷ 0
      ∷ (c / 256 % 256)
      ∷ (c % 256)
      ∷ (identifier / 256 % 256)
      ∷ (identifier % 256)
      ∷ (sequence / 256 % 256)
      ∷ (sequence % 256)
      ∷ pattern_bytes

  message-IsBytes : (c : ℕ) → kind < 256 → IsBytes (message c)
  message-IsBytes c small = (
    small,
    (
      omega arith,
      (
        omega arith,
        (
          omega arith,
          (
            omega arith,
            (
              omega arith,
              (
                omega arith,
                (
                  omega arith,
                  (
                    omega arith,
                    (
                      omega arith,
                      (
                        omega arith,
                        (
                          omega arith,
                          (
                            omega arith,
                            (
                              omega arith,
                              (
                                omega arith,
                                (
                                  omega arith,
                                  (
                                    omega arith,
                                    (
                                      omega arith,
                                      (
                                        omega arith,
                                        (
                                          omega arith,
                                          (
                                            omega arith,
                                            (
                                              omega arith,
                                              (
                                                omega arith,
                                                (
                                                  omega arith,
                                                  (
                                                    omega arith,
                                                    (
                                                      omega arith,
                                                      (
                                                        omega arith,
                                                        (
                                                          omega arith,
                                                          (
                                                            omega arith,
                                                            (
                                                            omega arith,
                                                            (
                                                            omega arith,
                                                            (
                                                            omega arith,
                                                            (
                                                            omega arith,
                                                            (
                                                            omega arith,
                                                            (
                                                            omega arith,
                                                            (
                                                            omega arith,
                                                            (
                                                            omega arith,
                                                            (
                                                            omega arith,
                                                            (omega arith, (omega arith, tt)),
                                                            ),
                                                            ),
                                                            ),
                                                            ),
                                                            ),
                                                            ),
                                                            ),
                                                            ),
                                                            ),
                                                          ),
                                                        ),
                                                      ),
                                                    ),
                                                  ),
                                                ),
                                              ),
                                            ),
                                          ),
                                        ),
                                      ),
                                    ),
                                  ),
                                ),
                              ),
                            ),
                          ),
                        ),
                      ),
                    ),
                  ),
                ),
              ),
            ),
          ),
        ),
      ),
    ),
  )

  checksum-message : kind < 256 → checksum (message (checksum (message 0))) ≡ 0
  unfolding checksum
  checksum-message small =
      let c = finish (sum_words 0 (message 0)) in
      let bound = words-le (message 0) (message-IsBytes 0 small) in
      let sum : sum_words 0 (message 0) ≡ words (message 0) =
        sum_words_lem (message 0) 0 (message-IsBytes 0 small) (omega arith) ∙ omega arith in
      let below : c < 65536 = finish-bound (sum_words 0 (message 0)) in
      let sum' : sum_words 0 (message c) ≡ words (message c) =
        sum_words_lem (message c) 0 (message-IsBytes c small) (omega arith) ∙ omega arith in
      let patched : words (message c) ≡ words (message 0) + c = patch c below in
      ap finish (sum' ∙ patched ∙ ap (λ w. w + c) (sym sum))
      ∙ finish-patch (sum_words 0 (message 0)) (omega (arith, sum, bound))
    where
      patch : (c : ℕ) → c < 65536 → words (message c) ≡ words (message 0) + c
      patch c below = omega arith

-- What the other side answers: the request, its type 0 and its checksum computed again.
abbrev pub reply_to : List ℕ → List ℕ
reply_to request =
    let cleared = write_be16 (set request 0 0) 2 0 in
    write_be16 cleared 2 (checksum (take 40 cleared))

-- What build_echo_request leaves.
request_lem :
    (payload : List ℕ) (identifier sequence : ℕ)
    → 40 ≤ length payload
    → build_echo_request (some payload) (length payload) identifier sequence ≡ (
      true,
      40,
      some (
          message 8 identifier sequence (checksum (message 8 identifier sequence 0))
          ++ drop 40 payload),
    )
unfolding build_echo_request fill_request write_be16 write_bytes
request_lem payload identifier sequence room =
    let fits : ltb (length payload) 40 ≡ false = ground arith in
    rw fits (
      by_cells 40
        (λ payload.
          let filled = fill_request payload identifier sequence in
          ◌≡◌ {A = Bool × ℕ × Option (List ℕ)}
            (true, 40, some (write_be16 filled 2 (checksum (take 40 filled))))
            (
              true,
              40,
              some (
                  message 8 identifier sequence (checksum (message 8 identifier sequence 0))
                  ++ drop 40 payload),
            ))
        payload room
        (λ x0 x1 x2 x3 x4 x5 x6 x7 x8 x9 x10 x11 x12 x13 x14 x15 x16 x17 x18 x19 x20 x21 x22 x23 x24
            x25 x26 x27 x28 x29 x30 x31 x32 x33 x34 x35 x36 x37 x38 x39 rest.
          refl))

reply_lem :
    (c identifier sequence : ℕ)
    → reply_to (message 8 identifier sequence c)
      ≡ message 0 identifier sequence (checksum (message 0 identifier sequence 0))
unfolding write_be16
reply_lem c identifier sequence = refl

accept_message :
    (c identifier sequence : ℕ)
    → identifier < 2 ^ 16
    → sequence < 2 ^ 16
    → checksum (message 0 identifier sequence c) ≡ 0
    → accept_echo_reply (some (message 0 identifier sequence c)) 40 identifier sequence ≡ (true, 32)
unfolding accept_echo_reply read_be16
accept_message c identifier sequence small small' valid =
    let i : identifier / 256 % 256 * 256 + identifier % 256 ≡ identifier = omega (arith, small) in
    let s : sequence / 256 % 256 * 256 + sequence % 256 ≡ sequence = omega (arith, small') in
    let same : (identifier == identifier) ≡ true = ground arith in
    let same' : (sequence == sequence) ≡ true = ground arith in rw (i, s, valid, same, same') refl

-- For a buffer of at least 40 bytes and a 16-bit identifier and sequence number, build_echo_request
-- succeeds, the checksum of the 40 bytes that it wrote is right, and the answer (the same message
-- with type 0 and its checksum computed again) is accepted with 32 bytes of data.
pub echo_lem :
    (payload : List ℕ) (identifier sequence : ℕ)
    → 40 ≤ length payload
    → identifier < 2 ^ 16
    → sequence < 2 ^ 16
    → let (done, n, out) = build_echo_request (some payload) (length payload) identifier sequence in
      let request = take n (bytes_of out) in
      (done ≡ true)
      × (checksum request ≡ 0)
      × (accept_echo_reply (some (reply_to request)) 40 identifier sequence ≡ (true, 32))
echo_lem payload identifier sequence room small small' =
    let c = checksum (message 8 identifier sequence 0) in
    let c' = checksum (message 0 identifier sequence 0) in
    rw (request_lem payload identifier sequence room) (
      refl,
      checksum-message 8 identifier sequence (omega arith),
      ap (λ m. accept_echo_reply (some m) 40 identifier sequence) (reply_lem c identifier sequence)
          ∙ accept_message c' identifier sequence small small'
              (checksum-message 0 identifier sequence (omega arith)),
    )
