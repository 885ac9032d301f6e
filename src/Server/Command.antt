-- ===== src/Server/Command.antt =====
-- The messages of the server, the packed structs of 20100117_RouterAssign_1/router/vnscommand.h. A
-- struct is the list of its fields, in their order; from the list come its size, its reading and its
-- writing. The array of length 0 at the end of some structs is what lies behind the struct.
pub mod Layout
pub mod Sent
use Prim.Native.String.{String}
use internet_course.Base.{ℕ, ◌+◌, List, [], ◌∷◌, ◌++◌, take, drop}
use internet_course.Bytes.{word_le, bytes_le}

-- A field with its name: an unsigned number of 32, 16 or 8 bits, or an array of characters.
pub data Field : Type 0 where
  uint32 : String → Field
  uint16 : String → Field
  uint8 : String → Field
  char : String → ℕ → Field

unfoldable pub width : Field → ℕ
width (uint32 name) = 4
width (uint16 name) = 2
width (uint8 name) = 1
width (char name n) = n

-- `sizeof`, without padding.
unfoldable pub sizeof : List Field → ℕ
sizeof [] = 0
sizeof (f ∷ fs) = width f + sizeof fs

-- A number as the host reads it, or the characters.
abbrev pub Content : Field → Type 0
Content (uint32 name) = ℕ
Content (uint16 name) = ℕ
Content (uint8 name) = ℕ
Content (char name n) = List ℕ

abbrev pub Contents : List Field → Type 0
Contents [] = Unit
Contents (f ∷ fs) = Content f × Contents fs

unfoldable pub read_field : (f : Field) → List ℕ → Content f
read_field (uint32 name) bs = word_le bs
read_field (uint16 name) bs = word_le bs
read_field (uint8 name) bs = word_le bs
read_field (char name n) bs = bs

unfoldable pub write_field : (f : Field) → Content f → List ℕ
write_field (uint32 name) v = bytes_le 4 v
write_field (uint16 name) v = bytes_le 2 v
write_field (uint8 name) v = bytes_le 1 v
write_field (char name n) cs = cs

unfoldable pub read_fields : (fs : List Field) → List ℕ → Contents fs
read_fields [] bs = tt
read_fields (f ∷ fs) bs = (read_field f (take (width f) bs), read_fields fs (drop (width f) bs))

unfoldable pub write_fields : (fs : List Field) → Contents fs → List ℕ
write_fields [] v = []
write_fields (f ∷ fs) v = write_field f v.0 ++ write_fields fs v.1

-- `IDSIZE`
abbrev pub idsize : ℕ
idsize = 32

-- The length of the message and its type, at the front of every message.
abbrev pub c_base : List Field
c_base = uint32 "mLen" ∷ uint32 "mType" ∷ []

abbrev pub c_open : List Field
c_open =
    uint32 "mLen"
    ∷ uint32 "mType"
    ∷ uint16 "topoID"
    ∷ uint16 "pad"
    ∷ char "mVirtualHostID" idsize
    ∷ char "mUID" idsize
    ∷ char "mPass" idsize
    ∷ []

abbrev pub c_close : List Field
c_close = uint32 "mLen" ∷ uint32 "mType" ∷ char "mErrorMessage" 256 ∷ []

abbrev pub c_hwrequest : List Field
c_hwrequest = uint32 "mLen" ∷ uint32 "mType" ∷ []

abbrev pub c_banner : List Field
c_banner = uint32 "mLen" ∷ uint32 "mType" ∷ char "mBannerMessage" 256 ∷ []

abbrev pub c_packet_ethernet_header : List Field
c_packet_ethernet_header =
    uint32 "mLen"
    ∷ uint32 "mType"
    ∷ char "mInterfaceName" 16
    ∷ char "ether_dhost" 6
    ∷ char "ether_shost" 6
    ∷ uint16 "ether_type"
    ∷ []

abbrev pub c_packet_header : List Field
c_packet_header = uint32 "mLen" ∷ uint32 "mType" ∷ char "mInterfaceName" 16 ∷ []

abbrev pub c_hw_entry : List Field
c_hw_entry = uint32 "mKey" ∷ char "value" 32 ∷ []

abbrev pub c_rtable : List Field
c_rtable = uint32 "mLen" ∷ uint32 "mType" ∷ char "mVirtualHostID" idsize ∷ []

abbrev pub c_src_filter : List Field
c_src_filter = uint32 "ip" ∷ uint8 "num_masked_bits" ∷ []

abbrev pub c_open_template : List Field
c_open_template =
    uint32 "mLen" ∷ uint32 "mType" ∷ char "templateName" 30 ∷ char "mVirtualHostID" idsize ∷ []

abbrev pub c_auth_request : List Field
c_auth_request = uint32 "mLen" ∷ uint32 "mType" ∷ []

abbrev pub c_auth_reply : List Field
c_auth_reply = uint32 "mLen" ∷ uint32 "mType" ∷ uint32 "usernameLen" ∷ []

abbrev pub c_auth_status : List Field
c_auth_status = uint32 "mLen" ∷ uint32 "mType" ∷ uint8 "auth_ok" ∷ []

-- The types of messages that are handled or sent; `VNSPACKET` is in Router.Send.
abbrev pub vnsopen : ℕ
vnsopen = 1

abbrev pub vnsclose : ℕ
vnsclose = 2

abbrev pub vnsbanner : ℕ
vnsbanner = 8

abbrev pub vnshwinfo : ℕ
vnshwinfo = 16

abbrev pub vns_rtable : ℕ
vns_rtable = 32

abbrev pub vns_open_template : ℕ
vns_open_template = 64

abbrev pub vns_auth_request : ℕ
vns_auth_request = 128

abbrev pub vns_auth_reply : ℕ
vns_auth_reply = 256

abbrev pub vns_auth_status : ℕ
vns_auth_status = 512
