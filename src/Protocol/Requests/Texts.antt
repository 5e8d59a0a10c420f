-- ===== src/Protocol/Requests/Texts.antt =====
-- pkg/protocol/client.go: the requests about texts and their marks.
use komandgo.Base.{ℕ, [], ◌∷◌, Bytes}
use komandgo.Hollerith.{text, number}
use komandgo.Protocol.Client.{
  KomClient, conference_from_name, generic, get_marks, get_text, text_number,
}
use komandgo.Protocol.Requests.{Issued, issue}
use komandgo.Types.Records.{InfoType, info_code}
use komandgo.Types.Time.{Civil, string_time}

-- `asyncGetMarks`
unfoldable pub async_get_marks : KomClient → Issued
async_get_marks k = issue get_marks 23 [] k

-- `asyncGetText`
unfoldable pub async_get_text : ℕ → ℕ → ℕ → KomClient → Issued
async_get_text text_no start end k =
    issue get_text 25 (number text_no ∷ number start ∷ number end ∷ []) k

-- `asyncDeleteText`
unfoldable pub async_delete_text : ℕ → KomClient → Issued
async_delete_text text_no k = issue generic 29 (number text_no ∷ []) k

-- `asyncAddRecipient`
unfoldable pub async_add_recipient : ℕ → Bytes → InfoType → KomClient → Issued
async_add_recipient text_no conference recipient_type k =
    issue generic 30
      (number text_no
        ∷ number (conference_from_name k conference)
        ∷ number (info_code recipient_type)
        ∷ [])
      k

-- `asyncSubRecipient`
unfoldable pub async_sub_recipient : ℕ → Bytes → KomClient → Issued
async_sub_recipient text_no conference k =
    issue generic 31 (number text_no ∷ number (conference_from_name k conference) ∷ []) k

-- `asyncAddComment`
unfoldable pub async_add_comment : ℕ → ℕ → KomClient → Issued
async_add_comment text_no comment_to k =
    issue generic 32 (number text_no ∷ number comment_to ∷ []) k

-- `asyncSubComment`
unfoldable pub async_sub_comment : ℕ → ℕ → KomClient → Issued
async_sub_comment text_no comment_to k =
    issue generic 33 (number text_no ∷ number comment_to ∷ []) k

-- `asyncAddFootnote`
unfoldable pub async_add_footnote : ℕ → ℕ → KomClient → Issued
async_add_footnote text_no footnote_to k =
    issue generic 37 (number text_no ∷ number footnote_to ∷ []) k

-- `asyncSubFootnote`
unfoldable pub async_sub_footnote : ℕ → ℕ → KomClient → Issued
async_sub_footnote text_no footnote_to k =
    issue generic 38 (number text_no ∷ number footnote_to ∷ []) k

-- `asyncGetLastText`
unfoldable pub async_get_last_text : Civil → KomClient → Issued
async_get_last_text when k = issue text_number 58 (text (string_time when) ∷ []) k

-- `asyncFindNextTextNo`
unfoldable pub async_find_next_text_no : ℕ → KomClient → Issued
async_find_next_text_no text_no k = issue text_number 60 (number text_no ∷ []) k

-- `asyncFindPreviousTextNo`
unfoldable pub async_find_previous_text_no : ℕ → KomClient → Issued
async_find_previous_text_no text_no k = issue text_number 61 (number text_no ∷ []) k

-- `asyncMarkText`
unfoldable pub async_mark_text : ℕ → ℕ → KomClient → Issued
async_mark_text text_no mark k = issue generic 72 (number text_no ∷ number mark ∷ []) k

-- `asyncUnmarkText`
unfoldable pub async_unmark_text : ℕ → KomClient → Issued
async_unmark_text text_no k = issue generic 73 (number text_no ∷ []) k
