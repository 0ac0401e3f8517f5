-- ===== src/Diacritics/Lower.antt =====
-- The lower-case rows of `defaultDiacriticsRemovalap` of scripts.js, letter by letter as code units.
use cidemis.Base.{List, [], ◌∷◌}
use cidemis.Diacritics.Row.{Entry}

abbrev pub lower_rows : List Entry
lower_rows =
    record {
      base = b'a' ∷ [];
      letters =
          0x0061 ∷ 0x24D0 ∷ 0xFF41 ∷ 0x1E9A ∷ 0x00E0 ∷ 0x00E1 ∷ 0x00E2 ∷ 0x1EA7 ∷ 0x1EA5 ∷ 0x1EAB
          ∷ 0x1EA9 ∷ 0x00E3 ∷ 0x0101 ∷ 0x0103 ∷ 0x1EB1 ∷ 0x1EAF ∷ 0x1EB5 ∷ 0x1EB3 ∷ 0x0227 ∷ 0x01E1
          ∷ 0x00E4 ∷ 0x01DF ∷ 0x1EA3 ∷ 0x00E5 ∷ 0x01FB ∷ 0x01CE ∷ 0x0201 ∷ 0x0203 ∷ 0x1EA1 ∷ 0x1EAD
          ∷ 0x1EB7 ∷ 0x1E01 ∷ 0x0105 ∷ 0x2C65 ∷ 0x0250 ∷ [];
    }
    ∷ record { base = b'a' ∷ b'a' ∷ []; letters = 0xA733 ∷ [] }
    ∷ record { base = b'a' ∷ b'e' ∷ []; letters = 0x00E6 ∷ 0x01FD ∷ 0x01E3 ∷ [] }
    ∷ record { base = b'a' ∷ b'o' ∷ []; letters = 0xA735 ∷ [] }
    ∷ record { base = b'a' ∷ b'u' ∷ []; letters = 0xA737 ∷ [] }
    ∷ record { base = b'a' ∷ b'v' ∷ []; letters = 0xA739 ∷ 0xA73B ∷ [] }
    ∷ record { base = b'a' ∷ b'y' ∷ []; letters = 0xA73D ∷ [] }
    ∷ record {
      base = b'b' ∷ [];
      letters = 0x0062 ∷ 0x24D1 ∷ 0xFF42 ∷ 0x1E03 ∷ 0x1E05 ∷ 0x1E07 ∷ 0x0180 ∷ 0x0183 ∷ 0x0253 ∷ [];
    }
    ∷ record {
      base = b'c' ∷ [];
      letters =
          0x0063 ∷ 0x24D2 ∷ 0xFF43 ∷ 0x0107 ∷ 0x0109 ∷ 0x010B ∷ 0x010D ∷ 0x00E7 ∷ 0x1E09 ∷ 0x0188
          ∷ 0x023C ∷ 0xA73F ∷ 0x2184 ∷ [];
    }
    ∷ record {
      base = b'd' ∷ [];
      letters =
          0x0064 ∷ 0x24D3 ∷ 0xFF44 ∷ 0x1E0B ∷ 0x010F ∷ 0x1E0D ∷ 0x1E11 ∷ 0x1E13 ∷ 0x1E0F ∷ 0x0111
          ∷ 0x018C ∷ 0x0256 ∷ 0x0257 ∷ 0xA77A ∷ [];
    }
    ∷ record { base = b'd' ∷ b'z' ∷ []; letters = 0x01F3 ∷ 0x01C6 ∷ [] }
    ∷ record {
      base = b'e' ∷ [];
      letters =
          0x0065 ∷ 0x24D4 ∷ 0xFF45 ∷ 0x00E8 ∷ 0x00E9 ∷ 0x00EA ∷ 0x1EC1 ∷ 0x1EBF ∷ 0x1EC5 ∷ 0x1EC3
          ∷ 0x1EBD ∷ 0x0113 ∷ 0x1E15 ∷ 0x1E17 ∷ 0x0115 ∷ 0x0117 ∷ 0x00EB ∷ 0x1EBB ∷ 0x011B ∷ 0x0205
          ∷ 0x0207 ∷ 0x1EB9 ∷ 0x1EC7 ∷ 0x0229 ∷ 0x1E1D ∷ 0x0119 ∷ 0x1E19 ∷ 0x1E1B ∷ 0x0247 ∷ 0x025B
          ∷ 0x01DD ∷ [];
    }
    ∷ record {
      base = b'f' ∷ [];
      letters = 0x0066 ∷ 0x24D5 ∷ 0xFF46 ∷ 0x1E1F ∷ 0x0192 ∷ 0xA77C ∷ [];
    }
    ∷ record {
      base = b'g' ∷ [];
      letters =
          0x0067 ∷ 0x24D6 ∷ 0xFF47 ∷ 0x01F5 ∷ 0x011D ∷ 0x1E21 ∷ 0x011F ∷ 0x0121 ∷ 0x01E7 ∷ 0x0123
          ∷ 0x01E5 ∷ 0x0260 ∷ 0xA7A1 ∷ 0x1D79 ∷ 0xA77F ∷ [];
    }
    ∷ record {
      base = b'h' ∷ [];
      letters =
          0x0068 ∷ 0x24D7 ∷ 0xFF48 ∷ 0x0125 ∷ 0x1E23 ∷ 0x1E27 ∷ 0x021F ∷ 0x1E25 ∷ 0x1E29 ∷ 0x1E2B
          ∷ 0x1E96 ∷ 0x0127 ∷ 0x2C68 ∷ 0x2C76 ∷ 0x0265 ∷ [];
    }
    ∷ record { base = b'h' ∷ b'v' ∷ []; letters = 0x0195 ∷ [] }
    ∷ record {
      base = b'i' ∷ [];
      letters =
          0x0069 ∷ 0x24D8 ∷ 0xFF49 ∷ 0x00EC ∷ 0x00ED ∷ 0x00EE ∷ 0x0129 ∷ 0x012B ∷ 0x012D ∷ 0x00EF
          ∷ 0x1E2F ∷ 0x1EC9 ∷ 0x01D0 ∷ 0x0209 ∷ 0x020B ∷ 0x1ECB ∷ 0x012F ∷ 0x1E2D ∷ 0x0268 ∷ 0x0131
          ∷ [];
    }
    ∷ record {
      base = b'j' ∷ [];
      letters = 0x006A ∷ 0x24D9 ∷ 0xFF4A ∷ 0x0135 ∷ 0x01F0 ∷ 0x0249 ∷ [];
    }
    ∷ record {
      base = b'k' ∷ [];
      letters =
          0x006B ∷ 0x24DA ∷ 0xFF4B ∷ 0x1E31 ∷ 0x01E9 ∷ 0x1E33 ∷ 0x0137 ∷ 0x1E35 ∷ 0x0199 ∷ 0x2C6A
          ∷ 0xA741 ∷ 0xA743 ∷ 0xA745 ∷ 0xA7A3 ∷ [];
    }
    ∷ record {
      base = b'l' ∷ [];
      letters =
          0x006C ∷ 0x24DB ∷ 0xFF4C ∷ 0x0140 ∷ 0x013A ∷ 0x013E ∷ 0x1E37 ∷ 0x1E39 ∷ 0x013C ∷ 0x1E3D
          ∷ 0x1E3B ∷ 0x017F ∷ 0x0142 ∷ 0x019A ∷ 0x026B ∷ 0x2C61 ∷ 0xA749 ∷ 0xA781 ∷ 0xA747 ∷ [];
    }
    ∷ record { base = b'l' ∷ b'j' ∷ []; letters = 0x01C9 ∷ [] }
    ∷ record {
      base = b'm' ∷ [];
      letters = 0x006D ∷ 0x24DC ∷ 0xFF4D ∷ 0x1E3F ∷ 0x1E41 ∷ 0x1E43 ∷ 0x0271 ∷ 0x026F ∷ [];
    }
    ∷ record {
      base = b'n' ∷ [];
      letters =
          0x006E ∷ 0x24DD ∷ 0xFF4E ∷ 0x01F9 ∷ 0x0144 ∷ 0x00F1 ∷ 0x1E45 ∷ 0x0148 ∷ 0x1E47 ∷ 0x0146
          ∷ 0x1E4B ∷ 0x1E49 ∷ 0x019E ∷ 0x0272 ∷ 0x0149 ∷ 0xA791 ∷ 0xA7A5 ∷ [];
    }
    ∷ record { base = b'n' ∷ b'j' ∷ []; letters = 0x01CC ∷ [] }
    ∷ record {
      base = b'o' ∷ [];
      letters =
          0x006F ∷ 0x24DE ∷ 0xFF4F ∷ 0x00F2 ∷ 0x00F3 ∷ 0x00F4 ∷ 0x1ED3 ∷ 0x1ED1 ∷ 0x1ED7 ∷ 0x1ED5
          ∷ 0x00F5 ∷ 0x1E4D ∷ 0x022D ∷ 0x1E4F ∷ 0x014D ∷ 0x1E51 ∷ 0x1E53 ∷ 0x014F ∷ 0x022F ∷ 0x0231
          ∷ 0x00F6 ∷ 0x022B ∷ 0x1ECF ∷ 0x0151 ∷ 0x01D2 ∷ 0x020D ∷ 0x020F ∷ 0x01A1 ∷ 0x1EDD ∷ 0x1EDB
          ∷ 0x1EE1 ∷ 0x1EDF ∷ 0x1EE3 ∷ 0x1ECD ∷ 0x1ED9 ∷ 0x01EB ∷ 0x01ED ∷ 0x00F8 ∷ 0x01FF ∷ 0x0254
          ∷ 0xA74B ∷ 0xA74D ∷ 0x0275 ∷ [];
    }
    ∷ record { base = b'o' ∷ b'i' ∷ []; letters = 0x01A3 ∷ [] }
    ∷ record { base = b'o' ∷ b'u' ∷ []; letters = 0x0223 ∷ [] }
    ∷ record { base = b'o' ∷ b'o' ∷ []; letters = 0xA74F ∷ [] }
    ∷ record {
      base = b'p' ∷ [];
      letters =
          0x0070 ∷ 0x24DF ∷ 0xFF50 ∷ 0x1E55 ∷ 0x1E57 ∷ 0x01A5 ∷ 0x1D7D ∷ 0xA751 ∷ 0xA753 ∷ 0xA755
          ∷ [];
    }
    ∷ record {
      base = b'q' ∷ [];
      letters = 0x0071 ∷ 0x24E0 ∷ 0xFF51 ∷ 0x024B ∷ 0xA757 ∷ 0xA759 ∷ [];
    }
    ∷ record {
      base = b'r' ∷ [];
      letters =
          0x0072 ∷ 0x24E1 ∷ 0xFF52 ∷ 0x0155 ∷ 0x1E59 ∷ 0x0159 ∷ 0x0211 ∷ 0x0213 ∷ 0x1E5B ∷ 0x1E5D
          ∷ 0x0157 ∷ 0x1E5F ∷ 0x024D ∷ 0x027D ∷ 0xA75B ∷ 0xA7A7 ∷ 0xA783 ∷ [];
    }
    ∷ record {
      base = b's' ∷ [];
      letters =
          0x0073 ∷ 0x24E2 ∷ 0xFF53 ∷ 0x00DF ∷ 0x015B ∷ 0x1E65 ∷ 0x015D ∷ 0x1E61 ∷ 0x0161 ∷ 0x1E67
          ∷ 0x1E63 ∷ 0x1E69 ∷ 0x0219 ∷ 0x015F ∷ 0x023F ∷ 0xA7A9 ∷ 0xA785 ∷ 0x1E9B ∷ [];
    }
    ∷ record {
      base = b't' ∷ [];
      letters =
          0x0074 ∷ 0x24E3 ∷ 0xFF54 ∷ 0x1E6B ∷ 0x1E97 ∷ 0x0165 ∷ 0x1E6D ∷ 0x021B ∷ 0x0163 ∷ 0x1E71
          ∷ 0x1E6F ∷ 0x0167 ∷ 0x01AD ∷ 0x0288 ∷ 0x2C66 ∷ 0xA787 ∷ [];
    }
    ∷ record { base = b't' ∷ b'z' ∷ []; letters = 0xA729 ∷ [] }
    ∷ record {
      base = b'u' ∷ [];
      letters =
          0x0075 ∷ 0x24E4 ∷ 0xFF55 ∷ 0x00F9 ∷ 0x00FA ∷ 0x00FB ∷ 0x0169 ∷ 0x1E79 ∷ 0x016B ∷ 0x1E7B
          ∷ 0x016D ∷ 0x00FC ∷ 0x01DC ∷ 0x01D8 ∷ 0x01D6 ∷ 0x01DA ∷ 0x1EE7 ∷ 0x016F ∷ 0x0171 ∷ 0x01D4
          ∷ 0x0215 ∷ 0x0217 ∷ 0x01B0 ∷ 0x1EEB ∷ 0x1EE9 ∷ 0x1EEF ∷ 0x1EED ∷ 0x1EF1 ∷ 0x1EE5 ∷ 0x1E73
          ∷ 0x0173 ∷ 0x1E77 ∷ 0x1E75 ∷ 0x0289 ∷ [];
    }
    ∷ record {
      base = b'v' ∷ [];
      letters = 0x0076 ∷ 0x24E5 ∷ 0xFF56 ∷ 0x1E7D ∷ 0x1E7F ∷ 0x028B ∷ 0xA75F ∷ 0x028C ∷ [];
    }
    ∷ record { base = b'v' ∷ b'y' ∷ []; letters = 0xA761 ∷ [] }
    ∷ record {
      base = b'w' ∷ [];
      letters =
          0x0077 ∷ 0x24E6 ∷ 0xFF57 ∷ 0x1E81 ∷ 0x1E83 ∷ 0x0175 ∷ 0x1E87 ∷ 0x1E85 ∷ 0x1E98 ∷ 0x1E89
          ∷ 0x2C73 ∷ [];
    }
    ∷ record { base = b'x' ∷ []; letters = 0x0078 ∷ 0x24E7 ∷ 0xFF58 ∷ 0x1E8B ∷ 0x1E8D ∷ [] }
    ∷ record {
      base = b'y' ∷ [];
      letters =
          0x0079 ∷ 0x24E8 ∷ 0xFF59 ∷ 0x1EF3 ∷ 0x00FD ∷ 0x0177 ∷ 0x1EF9 ∷ 0x0233 ∷ 0x1E8F ∷ 0x00FF
          ∷ 0x1EF7 ∷ 0x1E99 ∷ 0x1EF5 ∷ 0x01B4 ∷ 0x024F ∷ 0x1EFF ∷ [];
    }
    ∷ record {
      base = b'z' ∷ [];
      letters =
          0x007A ∷ 0x24E9 ∷ 0xFF5A ∷ 0x017A ∷ 0x1E91 ∷ 0x017C ∷ 0x017E ∷ 0x1E93 ∷ 0x1E95 ∷ 0x01B6
          ∷ 0x0225 ∷ 0x0240 ∷ 0x2C6C ∷ 0xA763 ∷ [];
    }
    ∷ []
