-- ===== src/Examples/Queue.antt =====
-- Commands and responses of Redis.
use notification_service.Base.{◌≡◌, refl, [], ◌∷◌, ◌++◌, List, arith, ℕ, zero, suc}
use notification_service.Queue.Resp.{
  Bytes, crlf, write_command, read_response, array, ok, panicked, negsuc, number, nil, Replies,
  read, read_value, read_bulk, read_full, read_line, trim_return, read_integer, parse_int, scan,
  read_array, read_items,
}
use notification_service.Queue.Resp.RoundTrip.{texts, read_response-write_command}
use notification_service.Queue.Resp.Suffix.{announces}
use notification_service.Queue.Resp.Termination.{Ends, read_response-Ends}

-- LLEN q
abbrev command : List Bytes
command = (b'L' ∷ (b'L' ∷ (b'E' ∷ (b'N' ∷ [])))) ∷ ((b'q' ∷ []) ∷ [])

read_response-write_command_example :
    read_response (write_command command ++ []) ≡ ok (array (texts command)) []
read_response-write_command_example =
    read_response-write_command command [] (omega arith) (omega arith, (omega arith, tt))

-- An array of a number and of nil, as EXEC could answer.
abbrev answer : Bytes
answer =
    b'*'
    ∷ (b'2'
        ∷ (crlf
            ++ (b':'
                ∷ (b'-' ∷ (b'1' ∷ (crlf ++ (b'$' ∷ (b'-' ∷ (b'1' ∷ (crlf ++ (b'x' ∷ [])))))))))))

answer_read :
    read_response answer
    ≡ ok (array (Replies.item (number (negsuc 0)) (Replies.item nil Replies.end))) (b'x' ∷ [])
unfolding read_response read read_value read_bulk read_full read_line trim_return read_integer
    parse_int scan read_array read_items
answer_read = refl

read_response-Ends_example : Ends (announces answer) answer (read_response answer)
read_response-Ends_example = read_response-Ends answer

abbrev zeros : ℕ → Bytes → Bytes
zeros zero s = s
zeros (suc n) s = b'0' ∷ zeros n s

-- An array of 20000000000000 values.
abbrev endless : Bytes
endless = b'*' ∷ (b'2' ∷ zeros 13 crlf)

endless_panics : read_response endless ≡ panicked
unfolding read_response read read_value read_array read_line trim_return parse_int scan read_items
endless_panics = refl
