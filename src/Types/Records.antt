-- ===== src/Types/Records.antt =====
-- pkg/types/types.go: the records of Protocol A that hold no code. Numbers of the types `ConfNo`,
-- `TextNo`, `AuxNo`, `SessionNo` and of the unsigned words are plain numbers, and the width of a word
-- stands where a value is read.
use komandgo.Base.{ℕ, List, Bytes}
use komandgo.Types.Flags.{
  ConfType, ExtendedConfType, PrivBits, PersonalFlags, AuxItemFlags, MembershipType, SessionFlags,
}
use komandgo.Types.Time.{Time}

pub record AuxItem : Type 0 where
  pub aux_no : ℕ
  pub tag : ℕ
  pub creator : ℕ
  pub created_at : Time
  pub flags : AuxItemFlags
  pub payload : Bytes

pub record AuxItemInput : Type 0 where
  pub tag : ℕ
  pub flags : AuxItemFlags
  pub inherit_limit : ℕ
  pub payload : Bytes

pub record OldConferece : Type 0 where
  pub name : Bytes
  pub type : ConfType
  pub creation_time : Time
  pub last_written : Time
  pub creator : ℕ
  pub presentation : ℕ
  pub supervisor : ℕ
  pub permitted_submitters : ℕ
  pub super_conf : ℕ
  pub nice : ℕ
  pub no_of_members : ℕ
  pub first_local_no : ℕ
  pub no_of_texts : ℕ

pub record Conference : Type 0 where
  pub name : Bytes
  pub type : ExtendedConfType
  pub creation_time : Time
  pub last_written : Time
  pub creator : ℕ
  pub presentation : ℕ
  pub supervisor : ℕ
  pub permitted_submitters : ℕ
  pub msg_of_day : ℕ
  pub nice : ℕ
  pub keep_commented : ℕ
  pub no_of_members : ℕ
  pub expire : ℕ
  pub aux_items : List AuxItem

pub record UConference : Type 0 where
  pub name : Bytes
  pub type : ExtendedConfType
  pub highest_local_no : ℕ
  pub nice : ℕ

pub record Person : Type 0 where
  pub username : Bytes
  pub privileges : PrivBits
  pub flags : PersonalFlags
  pub last_login : Time
  pub user_area : ℕ
  pub total_time_present : ℕ
  pub sessions : ℕ
  pub created_lines : ℕ
  pub created_bytes : ℕ
  pub read_texts : ℕ
  pub testfetches : ℕ
  pub created_persons : ℕ
  pub created_conferences : ℕ
  pub first_created_local_no : ℕ
  pub created_texts : ℕ
  pub marks : ℕ
  pub conferences : ℕ

pub record Member : Type 0 where
  pub member : ℕ
  pub added_by : ℕ
  pub added_at : Time
  pub type : MembershipType

pub record ReadRange : Type 0 where
  pub first_read : ℕ
  pub last_read : ℕ

pub record Membership : Type 0 where
  pub position : ℕ
  pub last_time_read : Time
  pub conference : ℕ
  pub priority : ℕ
  pub read_ranges : List ReadRange
  pub added_by : ℕ
  pub added_at : Time
  pub type : MembershipType

pub record MembershipOld : Type 0 where
  pub last_time_read : Time
  pub conference : ℕ
  pub last_text_read : ℕ
  pub read_texts : List ℕ

pub record Membership10 : Type 0 where
  pub position : ℕ
  pub last_time_read : Time
  pub conference : ℕ
  pub priority : ℕ
  pub last_text_read : ℕ
  pub read_tests : List ℕ
  pub added_by : ℕ
  pub added_at : Time
  pub type : MembershipType

pub record Mark : Type 0 where
  pub text_no : ℕ
  pub type : ℕ

pub record MiscInfo : Type 0 where
  pub selector : ℕ
  pub recipient : ℕ
  pub cc_recipient : ℕ
  pub comment_to : ℕ
  pub commented_in : ℕ
  pub footnote_to : ℕ
  pub footnoted_in : ℕ
  pub local_no : ℕ
  pub received_at : Time
  pub sender : ℕ
  pub sent_at : Time
  pub bcc_recipient : ℕ

pub record TextStatOld : Type 0 where
  pub creation_time : Time
  pub author : ℕ
  pub lines : ℕ
  pub characters : ℕ
  pub marks : ℕ
  pub misc_info : List MiscInfo

pub record TextStat : Type 0 where
  pub creation_time : Time
  pub author : ℕ
  pub lines : ℕ
  pub chars : ℕ
  pub marks : ℕ
  pub misc_info : List MiscInfo
  pub aux_items : List AuxItem

pub record WhoInfoOld : Type 0 where
  pub person : ℕ
  pub working_conference : ℕ
  pub what_am_i_doing : Bytes

pub record WhoInfo : Type 0 where
  pub person : ℕ
  pub working_conference : ℕ
  pub session : ℕ
  pub what_am_i_doing : Bytes
  pub user_name : Bytes

pub record WhoInfoIdent : Type 0 where
  pub person : ℕ
  pub working_conference : ℕ
  pub session : ℕ
  pub what_am_i_doing : Bytes
  pub user_name : Bytes
  pub host_name : Bytes
  pub ident_user : Bytes

pub record SessionInfo : Type 0 where
  pub person : ℕ
  pub working_conference : ℕ
  pub session : ℕ
  pub what_am_i_doing : Bytes
  pub user_name : Bytes
  pub idle_time : ℕ
  pub connection_time : Time

pub record SessionInfoIdent : Type 0 where
  pub person : ℕ
  pub working_conference : ℕ
  pub session : ℕ
  pub what_am_i_doing : Bytes
  pub user_name : Bytes
  pub host_name : Bytes
  pub ident_user : Bytes
  pub idle_time : ℕ
  pub connection_time : Time

pub record StaticSessionInfo : Type 0 where
  pub user_name : Bytes
  pub host_name : Bytes
  pub ident_user : Bytes
  pub connection_time : Time

pub record DynamicSessionInfo : Type 0 where
  pub session : ℕ
  pub peron : ℕ
  pub working_conference : ℕ
  pub idle_time : ℕ
  pub flags : SessionFlags
  pub what_am_i_doing : Bytes

pub record SchedulingInfo : Type 0 where
  pub priority : ℕ
  pub weight : ℕ

pub record ConfZInfo : Type 0 where
  pub name : Bytes
  pub type : ConfType
  pub conf_no : ℕ

pub record VersionInfo : Type 0 where
  pub protocol_version : ℕ
  pub server_software : Bytes
  pub software_version : Bytes

pub record InfoOld : Type 0 where
  pub version : ℕ
  pub conference_presentation_conference : ℕ
  pub person_presentation_conference : ℕ
  pub motd_conference : ℕ
  pub kom_news_conference : ℕ
  pub motd_of_lyskom : ℕ

-- `InfoType`, in the order of its constants.
pub data InfoType : Type 0 where
  recipient cc_recipient comment_to comment_in footnote_to footnote_in local_no receive_time :
      InfoType
  sent_by sent_at bcc_recipient : InfoType

-- The `uint8` of an `InfoType`.
unfoldable pub info_code : InfoType → ℕ
info_code recipient = 0
info_code cc_recipient = 1
info_code comment_to = 2
info_code comment_in = 3
info_code footnote_to = 4
info_code footnote_in = 5
info_code local_no = 6
info_code receive_time = 7
info_code sent_by = 8
info_code sent_at = 9
info_code bcc_recipient = 10
