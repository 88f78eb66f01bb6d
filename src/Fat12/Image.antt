-- ===== src/Fat12/Image.antt =====
-- The disk image that read_sector of filesystem/fat12.c makes on first use.
use uint_os.Common.{
  ℕ, ◌+◌, ◌-◌, ◌*◌, ◌/◌, ◌%◌, ◌^◌, ◌&&◌, List, [], ◌∷◌, ◌++◌, ltb, leb, if◌then◌else◌, length,
  get_or,
}
use uint_os.Fat12.Disk.{Image}

-- memcpy of bytes to address a, and of n bytes from address s to address d.
abbrev pub put : ℕ → List ℕ → Image → Image
put a bytes image x =
    if leb a x && ltb x (a + length bytes) then get_or bytes (x - a) 0 else image x

abbrev copy_within : ℕ → ℕ → ℕ → Image → Image
copy_within d s n image x = if leb d x && ltb x (d + n) then image (s + (x - d)) else image x

abbrev pub bytes16 : ℕ → List ℕ
bytes16 n = n % 256 ∷ n / 256 % 256 ∷ []

abbrev pub bytes32 : ℕ → List ℕ
bytes32 n = bytes16 (n % 2 ^ 16) ++ bytes16 (n / 2 ^ 16)

-- The boot sector and the entries of the disk that read_sector makes on first use.
abbrev boot_bytes : List ℕ
boot_bytes =
    0xEB
    ∷ 0x3C
    ∷ 0x90
    ∷ 85
    ∷ 73
    ∷ 78
    ∷ 84
    ∷ 79
    ∷ 83
    ∷ 32
    ∷ 32
    ∷ (bytes16 512
        ++ (1
            ∷ (bytes16 1
                ++ (2
                    ∷ (bytes16 224
                        ++ (bytes16 2880
                            ++ (0xF0
                                ∷ (bytes16 9
                                    ++ (bytes16 18
                                        ++ (bytes16 2 ++ (bytes32 0 ++ bytes32 0)))))))))))

abbrev pub entry_bytes : List ℕ → ℕ → ℕ → ℕ → List ℕ
entry_bytes name attr cluster size =
    name
    ++ (attr
        ∷ 0
        ∷ 0
        ∷ (bytes16 0x6123
            ++ (bytes16 0x5345
                ++ (bytes16 0
                    ++ (bytes16 0
                        ++ (bytes16 0x6123
                            ++ (bytes16 0x5345 ++ (bytes16 cluster ++ bytes32 size))))))))

-- fat_start, root_dir_start and data_start of that disk.
abbrev fat_start : ℕ
fat_start = 1

abbrev image_root_start : ℕ
image_root_start = fat_start + 2 * 9

abbrev data_start : ℕ
data_start = image_root_start + (224 * 32 + (512 - 1)) / 512

abbrev readme_name : List ℕ
readme_name = 82 ∷ 69 ∷ 65 ∷ 68 ∷ 77 ∷ 69 ∷ 32 ∷ 32 ∷ 84 ∷ 88 ∷ 84 ∷ []

abbrev kernel_name : List ℕ
kernel_name = 75 ∷ 69 ∷ 82 ∷ 78 ∷ 69 ∷ 76 ∷ 32 ∷ 32 ∷ 66 ∷ 73 ∷ 78 ∷ []

abbrev system_name : List ℕ
system_name = 83 ∷ 89 ∷ 83 ∷ 84 ∷ 69 ∷ 77 ∷ 32 ∷ 32 ∷ 32 ∷ 32 ∷ 32 ∷ []

abbrev log_name : List ℕ
log_name = 76 ∷ 79 ∷ 71 ∷ 32 ∷ 32 ∷ 32 ∷ 32 ∷ 32 ∷ 84 ∷ 88 ∷ 84 ∷ []

abbrev readme_content : List ℕ
readme_content =
    117 ∷ 105 ∷ 110 ∷ 116 ∷ 79 ∷ 83 ∷ 32 ∷ 45 ∷ 32 ∷ 65 ∷ 32 ∷ 115 ∷ 105 ∷ 109 ∷ 112 ∷ 108 ∷ 101
    ∷ 32 ∷ 101 ∷ 100 ∷ 117 ∷ 99 ∷ 97 ∷ 116 ∷ 105 ∷ 111 ∷ 110 ∷ 97 ∷ 108 ∷ 32 ∷ 79 ∷ 83 ∷ 13 ∷ 10
    ∷ []

abbrev log_content : List ℕ
log_content =
    83 ∷ 121 ∷ 115 ∷ 116 ∷ 101 ∷ 109 ∷ 32 ∷ 115 ∷ 116 ∷ 97 ∷ 114 ∷ 116 ∷ 101 ∷ 100 ∷ 32 ∷ 117 ∷ 112
    ∷ 32 ∷ 79 ∷ 75 ∷ 13 ∷ 10 ∷ []

abbrev kernel_content : Image → Image
kernel_content image x =
    if leb ((data_start + 1) * 512) x && ltb x ((data_start + 1) * 512 + 512) then 0xAA else image x

-- disk_image after the first call.
abbrev pub disk_image : Image
disk_image = put ((data_start + 3) * 512) log_content (
    put (image_root_start * 512 + 96) (entry_bytes log_name 0x20 5 24) (
      put (image_root_start * 512 + 64) (entry_bytes system_name 0x10 4 0) (
        kernel_content (
          put (image_root_start * 512 + 32) (entry_bytes kernel_name 0x20 3 512) (
            put (data_start * 512) readme_content (
              put (image_root_start * 512) (entry_bytes readme_name 0x20 2 37) (
                copy_within ((fat_start + 9) * 512) (fat_start * 512) (9 * 512) (
                  put (fat_start * 512) (0xF0 ∷ 0xFF ∷ 0xFF ∷ [])
                    (put 0 boot_bytes (λ x. 0))))))))))
